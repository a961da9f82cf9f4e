-- ===== src/Csv/Tests.antt =====
-- src/csvparser.c at small files and rows.
use mathlib.Core.List.{map, flat_map}
use solidc.Base.{
  ℕ, ◌-◌, ◌≡◌, refl, Bool, true, false, Option, none, some, List, [], ◌∷◌, ◌++◌, arith, leb,
  if◌then◌else◌, length,
}
use solidc.Csv.{Bytes, default_reader, isspace, str_ltrim, str_rtrim, rtrim_len, str_trim}
use solidc.Csv.Line.{
  count_delims, get_num_fields, accepted, overrun, store_field, parse_round, finish_row, parse_loop,
  parse_csv_line,
}
use solidc.Csv.Count.{end_line, count_char, count_block, count_blocks, line_count, drops_header}
use solidc.Csv.Count.Lines.{data_lines}
use solidc.Csv.Count.Lines.Total.{line_count_lem}
use solidc.Csv.Reader.{
  fgets, fgets_all, c_string, trim_end, data_line, read_first_valid_line, csv_allocate_rows,
  parse_rows, read_rows, csv_reader_parse, rows_read, allocate_each, return_rows, fill,
}
use solidc.Csv.Writer.{
  fputc, CsvWriter, strchr, field_needs_quoting, write_escaped, write_quoted_field,
  csvwriter_write_row,
}
use solidc.Csv.Writer.Text.{content, row_text, tail_text, field_text}
use solidc.Csv.Writer.Rows.{after, cut, flushed, csvwriter_write_row_lem}
use solidc.Csv.Writer.RoundTrip.{parse_csv_line-csvwriter_write_row}

abbrev grants_all : ℕ → Bool
grants_all n = true

-- `a,"b,c"`
abbrev two_fields : Bytes
two_fields = b'a' ∷ b',' ∷ b'"' ∷ b'b' ∷ b',' ∷ b'c' ∷ b'"' ∷ []

abbrev blank_writer : CsvWriter
blank_writer = record {
  stream = record { written = []; left = 100; syncs = true; error = false };
  delim = b',';
  quote = b'"';
  newline = b'\n';
  quote_all = false;
  flush = true;
}

reads_two :
    parse_csv_line grants_all 2 b',' b'"' two_fields
    ≡ accepted ((b'a' ∷ []) ∷ (b'b' ∷ b',' ∷ b'c' ∷ []) ∷ [])
unfolding parse_csv_line parse_loop parse_round store_field finish_row str_trim str_ltrim str_rtrim
    rtrim_len isspace
reads_two = refl

-- A row of two fields, where the first line had one.
leaves_array : parse_csv_line grants_all 1 b',' b'"' two_fields ≡ overrun
unfolding parse_csv_line parse_loop parse_round store_field finish_row str_trim str_ltrim str_rtrim
    rtrim_len isspace
leaves_array = refl

-- The field `"` is written as `""""`, which is read as the empty field.
loses_quote :
    (write_quoted_field (b'"' ∷ []) b'"' blank_writer.stream).1.written
    ≡ b'"' ∷ b'"' ∷ b'"' ∷ b'"' ∷ []
unfolding write_quoted_field write_escaped fputc
loses_quote = refl

reads_no_quote :
    parse_csv_line grants_all 1 b',' b'"' (b'"' ∷ b'"' ∷ b'"' ∷ b'"' ∷ []) ≡ accepted ([] ∷ [])
unfolding parse_csv_line parse_loop parse_round store_field finish_row str_trim str_ltrim str_rtrim
    rtrim_len isspace
reads_no_quote = refl

-- For a row without fields, the error indicator of NULL is read.
asks_null : csvwriter_write_row (some blank_writer) (some []) 0 ≡ none
unfolding csvwriter_write_row fputc
asks_null = refl

-- `hi`, and a line of one character
abbrev short_file : List Bytes
short_file = (b'h' ∷ b'i' ∷ b'\n' ∷ b'x' ∷ b'\n' ∷ []) ∷ []

counts_both : line_count default_reader short_file ≡ 2
unfolding line_count count_blocks count_block count_char end_line
counts_both = refl

-- The second row is counted, but nothing is written to it.
reads_one :
    (csv_reader_parse grants_all default_reader short_file).0
    ≡ rows_read (some ((b'h' ∷ b'i' ∷ []) ∷ []) ∷ none ∷ [])
unfolding csv_reader_parse read_rows parse_rows csv_allocate_rows allocate_each return_rows fill
    read_first_valid_line data_line fgets_all fgets c_string trim_end flat_map get_num_fields
    count_delims parse_csv_line parse_loop parse_round store_field finish_row str_trim str_ltrim
    str_rtrim rtrim_len line_count count_blocks count_block count_char end_line isspace
reads_one = refl

line_count_lem_example : line_count default_reader short_file ≡ (
    let lines = data_lines default_reader (flat_map (λ b. b) short_file) in
    if drops_header default_reader then lines - 1 else lines)
line_count_lem_example = line_count_lem default_reader short_file

abbrev a_field : Option Bytes
a_field = some (b'a' ∷ [])

-- A field with the delimiter in it, and NULL.
abbrev more_fields : List (Option Bytes)
more_fields = some (b'b' ∷ b',' ∷ b'c' ∷ []) ∷ none ∷ []

csvwriter_write_row_lem_example :
    csvwriter_write_row (some blank_writer) (some (a_field ∷ more_fields)) 3 ≡ (
      let text = row_text blank_writer (a_field ∷ more_fields) ++ b'\n' ∷ [] in
      let (ok, s) =
        if leb (length text) 100
        then flushed blank_writer (after text blank_writer.stream)
        else (false, cut text blank_writer.stream) in
      some (ok, some s))
csvwriter_write_row_lem_example = csvwriter_write_row_lem blank_writer a_field more_fields refl

parse_csv_line-csvwriter_write_row_example :
    (text : Bytes) × (csvwriter_write_row (some blank_writer) (some (a_field ∷ more_fields)) 3
      ≡ some (true, some (after (text ++ b'\n' ∷ []) blank_writer.stream)))
    × (parse_csv_line grants_all 3 b',' b'"' text ≡ accepted (map content (a_field ∷ more_fields)))
unfolding row_text tail_text field_text field_needs_quoting strchr str_trim str_ltrim str_rtrim
    rtrim_len isspace flat_map
parse_csv_line-csvwriter_write_row_example =
    parse_csv_line-csvwriter_write_row blank_writer refl grants_all (λ k. refl) a_field more_fields
      ((refl, refl), ((refl, refl), ((refl, refl), tt))) (omega arith) refl (omega arith) refl
