-- ===== src/Csv/Reader.antt =====
-- The reader of src/csvparser.c. The file is given as the blocks that fread returns; what fgets returns
-- is cut from their contents.
pub mod Pieces
pub mod Rows
pub mod Array
pub mod Answer
use mathlib.Core.List.{flat_map}
use solidc.Base.{
  ℕ, zero, suc, ◌+◌, ◌-◌, ◌*◌, ◌^◌, ◌%◌, Bool, true, false, not, ◌&&◌, ◌||◌, Option, none, some,
  List, [], ◌∷◌, ◌++◌, leb, ltb, ◌==◌, if◌then◌else◌, get_or, take, length,
}
use solidc.Csv.{Bytes, max_field_size, CsvReader, isspace}
use solidc.Csv.Line.{get_num_fields, Parsed, accepted, rejected, overrun, parse_csv_line}
use solidc.Csv.Count.{drops_header, line_count}

-- `fgets` from a stream that is not at its end: at most `room` bytes, up to a newline, and the rest.
unfoldable pub fgets : ℕ → Bytes → Bytes × Bytes
fgets zero stream = ([], stream)
fgets (suc room) [] = ([], [])
fgets (suc room) (c ∷ stream) =
    let (piece, rest) = fgets room stream in
    if c == b'\n' then (c ∷ [], stream) else (c ∷ piece, rest)

-- The buffers that fgets fills one after the other, on fuel.
unfoldable pub fgets_all : ℕ → Bytes → List Bytes
fgets_all zero stream = []
fgets_all (suc fuel) [] = []
fgets_all (suc fuel) (c ∷ stream) =
    let (piece, rest) = fgets (max_field_size - 1) (c ∷ stream) in piece ∷ fgets_all fuel rest

-- the bytes of a buffer before the first NUL
unfoldable pub c_string : Bytes → Bytes
c_string [] = []
c_string (c ∷ buffer) = let rest = c_string buffer in if c == 0 then [] else c ∷ rest

-- The loop that moves `end` back, with `end + 1 - line`.
unfoldable pub trim_end : Bytes → ℕ → ℕ
trim_end line zero = 0
trim_end line (suc zero) = 1
trim_end line (suc (suc k)) =
    let rest = trim_end line (suc k) in
    if isspace (get_or line (suc k) 0) then rest else suc (suc k)

-- The line in a buffer, unless it is skipped as empty or as a comment.
unfoldable pub data_line : CsvReader → Bytes → Option Bytes
data_line reader buffer =
    let str = c_string buffer in
    let kept = trim_end str (length str) in
    let line = take kept str in
    if kept == 1 then none else if get_or line 0 0 == reader.comment then none else some line

unfoldable pub read_first_valid_line : CsvReader → List Bytes → Option Bytes
read_first_valid_line reader [] = none
read_first_valid_line reader (buffer ∷ buffers) = elim (data_line reader buffer) [
  | none ↦ read_first_valid_line reader buffers
  | some line ↦ some line
]

-- How the loop over the lines ends, with the rows so far: at the end, at a line that is refused, or in a
-- write past the array of fields.
pub data Ended : Type 0 where
  finished : List (List Bytes) → Ended
  failed : List (List Bytes) → Ended
  overran : List (List Bytes) → Ended

-- `Row* rows[]`, where `none` is a row that nothing was written to
abbrev pub RowArray : Type 0
RowArray = List (Option (List Bytes))

-- The first rows of the array are written.
unfoldable pub fill : List (List Bytes) → RowArray → RowArray
fill [] array = array
fill (row ∷ rows) [] = []
fill (row ∷ rows) (_ ∷ array) = some row ∷ fill rows array

-- What `csv_reader_parse` returns: NULL or the array of the rows, unless it has written past the array of
-- fields of a row.
pub data Returned : Type 0 where
  null out_of_bounds : Returned
  rows_read : RowArray → Returned

-- `if (!parse_success) return NULL; return reader->rows;`
unfoldable pub return_rows : Option (RowArray × Ended) → Returned
return_rows none = null
return_rows (some (array, finished rows)) = rows_read (fill rows array)
return_rows (some (array, failed rows)) = null
return_rows (some (array, overran rows)) = out_of_bounds

module _ (grants : ℕ → Bool) where
  -- the loop of `csv_allocate_rows`
  unfoldable pub allocate_each : ℕ → Option RowArray
  allocate_each zero = some []
  allocate_each (suc num_rows) =
      let more = allocate_each num_rows in
      if grants 16 then elim more [ none ↦ none | some array ↦ some (none ∷ array) ] else none

  unfoldable pub csv_allocate_rows : ℕ → Option RowArray
  csv_allocate_rows num_rows =
      if num_rows == 0
      then none
      else if grants (num_rows * 8 % 2 ^ 64)
      then allocate_each num_rows
      else none

  -- The loop of `csv_reader_parse` and of `csv_reader_parse_async`; `rowIndex` is the number of `rows`.
  unfoldable pub parse_rows : CsvReader → ℕ → ℕ → List Bytes → Bool → List (List Bytes) → Ended
  parse_rows reader num_rows num_fields [] header_skipped rows = finished rows
  parse_rows reader num_rows num_fields (buffer ∷ buffers) header_skipped rows =
      if leb num_rows (length rows) then finished rows else elim (data_line reader buffer) [
        | none ↦ parse_rows reader num_rows num_fields buffers header_skipped rows
        | some line ↦ elim (drops_header reader && (length rows == 0 && not header_skipped)) [
          | true ↦ parse_rows reader num_rows num_fields buffers true rows
          | false ↦ elim (parse_csv_line grants num_fields reader.delim reader.quote line) [
            | accepted row ↦
                parse_rows reader num_rows num_fields buffers header_skipped (rows ++ row ∷ [])
            | rejected ↦ failed rows
            | overrun ↦ overran rows
          ]
        ]
      ]

  -- What stands before and around the loop: the allocated rows and how the loop ends, `none` when it is
  -- not reached.
  unfoldable pub read_rows : CsvReader → ℕ → Bytes → Option (RowArray × Ended)
  read_rows reader num_rows stream =
      let buffers = fgets_all (suc (length stream)) stream in
      elim (csv_allocate_rows num_rows) [
        | none ↦ none
        | some array ↦ elim (read_first_valid_line reader buffers) [
          | none ↦ none
          | some line ↦
              let num_fields = get_num_fields reader.delim reader.quote line in
              if num_fields == 0
              then none
              else some (array, parse_rows reader num_rows num_fields buffers false [])
        ]
      ]

  -- The result, and the reader, whose `rows` are the array that is returned.
  unfoldable pub csv_reader_parse : CsvReader → List Bytes → Returned × CsvReader
  csv_reader_parse reader blocks =
      let num_rows = line_count reader blocks in
      let reader' = record reader { num_rows = num_rows } in
      (return_rows (read_rows reader' num_rows (flat_map (λ b. b) blocks)), reader')

  -- The rows that `callback` is called with, and whether the array of fields of a row is left.
  pub csv_reader_parse_async : CsvReader → List Bytes → ℕ → (List (List Bytes) × Bool) × CsvReader
  csv_reader_parse_async reader blocks maxrows =
      let counted = line_count reader blocks in
      let num_rows = if ltb 0 maxrows && ltb maxrows counted then maxrows else counted in
      let reader' = record reader { num_rows = num_rows } in
      elim (read_rows reader' num_rows (flat_map (λ b. b) blocks)) [
        | none ↦ (([], false), reader')
        | some (array, finished rows) ↦ ((rows, false), reader')
        | some (array, failed rows) ↦ ((rows, false), reader')
        | some (array, overran rows) ↦ ((rows, true), reader')
      ]
