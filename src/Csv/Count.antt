-- ===== src/Csv/Count.antt =====
-- line_count of src/csvparser.c, which reads the stream in blocks.
pub mod Lines
use solidc.Base.{
  ℕ, zero, suc, ◌+◌, ◌-◌, Bool, true, false, not, ◌&&◌, ◌||◌, List, [], ◌∷◌, ◌++◌, ◌==◌,
  if◌then◌else◌,
}
use solidc.Csv.{Bytes, CsvReader}

-- The local variables, with the header flag of the reader passed beside them.
pub record Counting : Type 0 where
  pub lines : ℕ
  pub header_skipped : Bool
  pub line_first_char : Bool
  pub skip_this_line : Bool
  pub blank_line : Bool

-- has_header and skip_header of the reader: the first line of data is the header, and left out
abbrev pub drops_header : CsvReader → Bool
drops_header reader = reader.has_header && reader.skip_header

-- The end of a line that has content: it is the header or counts.
unfoldable pub end_line : CsvReader → Counting → Counting
end_line reader s =
    if not s.skip_this_line && not s.blank_line
    then if drops_header reader && (not s.header_skipped && s.lines == 0)
      then record s { header_skipped = true }
      else record s { lines = s.lines + 1 }
    else s

abbrev pub is_blank : ℕ → Bool
is_blank c = c == b'\r' || (c == b' ' || c == b'\t')

-- One round of the loop over the characters.
unfoldable pub count_char : CsvReader → ℕ → Counting → Counting
count_char reader c s =
    if c == b'\n'
    then record (end_line reader s) {
      skip_this_line = false;
      blank_line = true;
      line_first_char = true;
    }
    else if s.skip_this_line
    then s
    else if s.line_first_char && c == reader.comment
    then record s { line_first_char = false; skip_this_line = true }
    else record s { line_first_char = false; blank_line = s.blank_line && is_blank c }

unfoldable pub count_block : CsvReader → Bytes → Counting → Counting
count_block reader [] s = s
count_block reader (c ∷ block) s = count_block reader block (count_char reader c s)

unfoldable pub count_blocks : CsvReader → List Bytes → Counting → Counting
count_blocks reader [] s = s
count_blocks reader (block ∷ blocks) s = count_blocks reader blocks (count_block reader block s)

abbrev pub start : Counting
start = record {
  lines = 0;
  header_skipped = false;
  line_first_char = true;
  skip_this_line = false;
  blank_line = true;
}

-- on the blocks that fread returns one after the other
unfoldable pub line_count : CsvReader → List Bytes → ℕ
line_count reader blocks =
    let s = count_blocks reader blocks start in
    if not s.skip_this_line && not s.blank_line
    then if drops_header reader && (not s.header_skipped && s.lines == 0)
      then s.lines
      else s.lines + 1
    else s.lines
