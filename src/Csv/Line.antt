-- ===== src/Csv/Line.antt =====
-- get_num_fields and parse_csv_line of src/csvparser.c. The arena answers, for each size, whether it
-- meets a request.
pub mod Fields
pub mod Rows
pub mod Judged
use solidc.Base.{
  ℕ, ◌+◌, ◌-◌, ◌*◌, ◌^◌, ◌%◌, Bool, true, false, not, ◌&&◌, List, [], ◌∷◌, ◌++◌, leb, ltb, ◌==◌,
  if◌then◌else◌, length,
}
use solidc.Csv.{Bytes, max_field_size, str_trim}

-- The loop of `get_num_fields`.
unfoldable pub count_delims : ℕ → ℕ → Bytes → Bool → ℕ → ℕ
count_delims delim quote [] inside_quotes num_fields = num_fields
count_delims delim quote (c ∷ line) inside_quotes num_fields =
    count_delims delim quote line (if c == quote then not inside_quotes else inside_quotes)
      (if not (c == quote) && (c == delim && not inside_quotes) then num_fields + 1 else num_fields)

unfoldable pub get_num_fields : ℕ → ℕ → Bytes → ℕ
get_num_fields delim quote [] = 0
get_num_fields delim quote (c ∷ line) = count_delims delim quote (c ∷ line) false 0 + 1

-- `true` with the fields of the row, `false`, or a write past the end of `row->fields`
pub data Parsed : Type 0 where
  accepted : List Bytes → Parsed
  rejected : Parsed
  overrun : Parsed

-- One round of the loop: the quote state, the field and the fields after it, or a return.
pub data Round : Type 0 where
  next : Bool → Bytes → List Bytes → Round
  stop : Parsed → Round

module _ (grants : ℕ → Bool) (num_fields : ℕ) where
  -- `fields[row->count++] = arena_strdup(arena, field)` of the trimmed field
  unfoldable pub store_field : Bool → Bytes → List Bytes → Round
  store_field inside_quotes field fields =
      let text = str_trim field in
      if leb num_fields (length fields)
      then stop overrun
      else if grants (length text + 1)
      then next inside_quotes [] (fields ++ text ∷ [])
      else stop rejected

  unfoldable pub parse_round : ℕ → ℕ → ℕ → Bool → Bytes → List Bytes → Round
  parse_round delim quote c inside_quotes field fields =
      if c == quote
      then next (not inside_quotes) field fields
      else if c == delim && not inside_quotes
      then store_field inside_quotes field fields
      else if leb (max_field_size - 1) (length field)
      then stop rejected
      else next inside_quotes (field ++ c ∷ []) fields

  -- what comes behind the loop
  unfoldable pub finish_row : Bool → Bytes → List Bytes → Parsed
  finish_row inside_quotes field fields =
      if inside_quotes then rejected else elim (store_field inside_quotes field fields) [
        | stop parsed ↦ parsed
        | next _ _ fields' ↦ if length fields' == num_fields then accepted fields' else rejected
      ]

  unfoldable pub parse_loop : ℕ → ℕ → Bytes → Bool → Bytes → List Bytes → Parsed
  parse_loop delim quote [] inside_quotes field fields = finish_row inside_quotes field fields
  parse_loop delim quote (c ∷ line) inside_quotes field fields =
      elim (parse_round delim quote c inside_quotes field fields) [
        | stop parsed ↦ parsed
        | next inside' field' fields' ↦ parse_loop delim quote line inside' field' fields'
      ]

  unfoldable pub parse_csv_line : ℕ → ℕ → Bytes → Parsed
  parse_csv_line delim quote line =
      if grants (num_fields * 8 % 2 ^ 64) then parse_loop delim quote line false [] [] else rejected
