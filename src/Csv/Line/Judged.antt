-- ===== src/Csv/Line/Judged.antt =====
-- What a caller of parse_csv_line of src/csvparser.c learns of a line from its answer.
use solidc.Base.{ℕ, ◌<◌, ◌≡◌, refl, sym, ◌∙◌, Bool, true, false, length}
use solidc.Csv.{Bytes, max_field_size}
use solidc.Csv.Line.{get_num_fields, Parsed, accepted, rejected, overrun, parse_csv_line}
use solidc.Csv.Line.Fields.{inside_after}
use solidc.Csv.Line.Rows.{
  fields_of, Outcome, verdict-exact, parse_csv_line-fields_of, parse_csv_line_lem, Counted,
  parse_csv_line-Counted,
}

-- A line of `n` fields, with paired quotes.
abbrev pub IsGood : ℕ → ℕ → ℕ → Bytes → Type 0
IsGood n delim quote line =
    (inside_after quote line false ≡ false) × (length (fields_of delim quote line) ≡ n)

abbrev pub MeetsAll : (ℕ → Bool) → Type 0
MeetsAll grants = (k : ℕ) → grants k ≡ true

module _ (grants : ℕ → Bool) (n delim quote : ℕ) where
  -- A row is that of the line, with `n` fields; a line is refused only where the arena refuses a request
  -- or the line is not good; and the array is left only where the line has more fields.
  abbrev pub Judged : Bytes → Parsed → Type 0
  Judged line (accepted row) = (row ≡ fields_of delim quote line) × (length row ≡ n)
  Judged line rejected = MeetsAll grants × IsGood n delim quote line → ⊥
  Judged line overrun = n < get_num_fields delim quote line

  judge :
      (line : Bytes) (p : Parsed)
      → length line < max_field_size
      → parse_csv_line grants n delim quote line ≡ p
      → Outcome n (fields_of delim quote line) p
      → Counted grants n (get_num_fields delim quote line) p
      → Judged line p
  judge line (accepted row) short e o c = (o.0, c)
  judge line rejected short e o c = λ (all, (paired, same)).
      let meant : parse_csv_line grants n delim quote line ≡ accepted (fields_of delim quote line) =
        parse_csv_line_lem grants n delim quote line short all paired
        ∙ verdict-exact grants n (fields_of delim quote line) same in
      let clash : rejected ≡ accepted (fields_of delim quote line) = sym e ∙ meant in cc clash
  judge line overrun short e o c = c

  pub parse_csv_line-Judged :
      (line : Bytes)
      → length line < max_field_size
      → 0 < n
      → Judged line (parse_csv_line grants n delim quote line)
  parse_csv_line-Judged line short pos =
      judge line _ short refl (parse_csv_line-fields_of grants n delim quote line short)
        (parse_csv_line-Counted grants n delim quote line short pos)
