-- ===== src/Csv/Reader/Answer.antt =====
-- What csv_reader_parse of src/csvparser.c returns, on every branch.
use mathlib.Core.List.{map, flat_map}
use solidc.Base.{ℕ, suc, ◌≤◌, ◌<◌, ◌≡◌, Bool, List, if◌then◌else◌, length, take}
use solidc.Csv.{Bytes, CsvReader}
use solidc.Csv.Line.Rows.{fields_of}
use solidc.Csv.Line.Judged.{MeetsAll}
use solidc.Csv.Count.{drops_header}
use solidc.Csv.Reader.{fgets_all, Returned, null, out_of_bounds, rows_read}
use solidc.Csv.Reader.Array.{padded}
use solidc.Csv.Reader.Rows.{HaveLength, HaveAtMost, HaveGood, lines_of, tail}

-- the buffers that fgets fills from the whole file
abbrev pub buffers_of : List Bytes → List Bytes
buffers_of blocks = let stream = flat_map (λ b. b) blocks in fgets_all (suc (length stream)) stream

-- The rows of the lines, without the header when the reader skips it, as many as there is room for.
abbrev pub expected : CsvReader → ℕ → List Bytes → List (List Bytes)
expected reader num_rows buffers = take num_rows (
    map (fields_of reader.delim reader.quote)
      (if drops_header reader then tail (lines_of reader buffers) else lines_of reader buffers))

-- The array of `num_rows` rows begins with the expected ones, all of `n` fields, and nothing was written
-- to the others; NULL has a cause; and an array of fields is left only where a line has more than `n`.
abbrev pub IsAnswer : (ℕ → Bool) → CsvReader → ℕ → ℕ → List Bytes → Returned → Type 0
IsAnswer grants reader num_rows n buffers (rows_read array) =
    (array ≡ padded num_rows (expected reader num_rows buffers))
    × HaveLength n (expected reader num_rows buffers)
    × (length (expected reader num_rows buffers) ≤ num_rows)
IsAnswer grants reader num_rows n buffers null =
    MeetsAll grants × (0 < num_rows) × (0 < n) × HaveGood reader n buffers → ⊥
IsAnswer grants reader num_rows n buffers out_of_bounds = HaveAtMost reader n buffers → ⊥
