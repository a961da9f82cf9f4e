-- ===== src/Csv/Reader/Rows.antt =====
-- The rows that the reader of src/csvparser.c returns.
use mathlib.Core.List.{map}
use mathlib.Core.Path.{subst}
use solidc.Base.{
  ℕ, zero, suc, ◌≤◌, ◌<◌, ◌≡◌, refl, sym, ap, ◌∙◌, inl, inr, Bool, true, false, ◌&&◌, Option, none,
  some, List, [], ◌∷◌, if◌then◌else◌, ◌++◌, append_assoc, leb, ◌==◌, length, take, arith,
  Bool-cases, Option-cases, leb→gt, leb→le, ne→==, length-append, not,
}
use solidc.Csv.{Bytes, CsvReader, max_field_size}
use solidc.Csv.Line.{get_num_fields, Parsed, accepted, rejected, overrun, parse_csv_line}
use solidc.Csv.Line.Rows.{fields_of}
use solidc.Csv.Line.Judged.{IsGood, MeetsAll, Judged, parse_csv_line-Judged}
use solidc.Csv.Count.{drops_header}
use solidc.Csv.Reader.{data_line, Ended, finished, failed, overran, parse_rows}
use solidc.Csv.Reader.Pieces.{AreShort, IsWithin, data_line-IsWithin}

-- All rows have `n` fields.
abbrev pub HaveLength : ℕ → List (List Bytes) → Type 0
HaveLength n [] = Unit
HaveLength n (row ∷ rows) = (length row ≡ n) × HaveLength n rows

HaveLength-append :
    (n : ℕ) (rows : List (List Bytes)) (row : List Bytes)
    → HaveLength n rows
    → length row ≡ n
    → HaveLength n (rows ++ row ∷ [])
HaveLength-append n [] row a b = (b, tt)
HaveLength-append n (other ∷ rows) row a b = (a.0, HaveLength-append n rows row a.1 b)

abbrev pub HasAtMost : CsvReader → ℕ → Option Bytes → Type 0
HasAtMost reader n none = Unit
HasAtMost reader n (some line) = get_num_fields reader.delim reader.quote line ≤ n

-- No line in the buffers has more than `n` fields.
abbrev pub HaveAtMost : CsvReader → ℕ → List Bytes → Type 0
HaveAtMost reader n [] = Unit
HaveAtMost reader n (buffer ∷ buffers) =
    HasAtMost reader n (data_line reader buffer) × HaveAtMost reader n buffers

abbrev pub HasGood : CsvReader → ℕ → Option Bytes → Type 0
HasGood reader n none = Unit
HasGood reader n (some line) = IsGood n reader.delim reader.quote line

-- Every line in the buffers has `n` fields and paired quotes.
abbrev pub HaveGood : CsvReader → ℕ → List Bytes → Type 0
HaveGood reader n [] = Unit
HaveGood reader n (buffer ∷ buffers) =
    HasGood reader n (data_line reader buffer) × HaveGood reader n buffers

-- The lines in the buffers that are not skipped as empty or as comments.
pub lines_of : CsvReader → List Bytes → List Bytes
lines_of reader [] = []
lines_of reader (buffer ∷ buffers) = elim (data_line reader buffer) [
  | none ↦ lines_of reader buffers
  | some line ↦ line ∷ lines_of reader buffers
]

abbrev pub tail : List Bytes → List Bytes
tail [] = []
tail (line ∷ lines) = lines

and_false : (b : Bool) → (b && false) ≡ false
and_false true = refl
and_false false = refl

module _ (grants : ℕ → Bool) (reader : CsvReader) (num_rows n : ℕ) (pos : 0 < n) where
  abbrev heads : Bool → List (List Bytes) → Bool
  heads skipped rows = drops_header reader && (length rows == 0 && not skipped)

  -- The rows that the lines to come have, where the first may be the header.
  abbrev pub coming : Bool → List (List Bytes) → List Bytes → List (List Bytes)
  coming skipped rows buffers =
      map (fields_of reader.delim reader.quote)
        (if heads skipped rows then tail (lines_of reader buffers) else lines_of reader buffers)

  -- The rows are those of the lines, as many as there is room for; the loop fails only where a request is
  -- refused or a line is not good; and it leaves the array of fields only where a line has more than `n`.
  abbrev pub Sound : Bool → List (List Bytes) → List Bytes → Ended → Type 0
  Sound skipped rows buffers (finished all) =
      (all ≡ take num_rows (rows ++ coming skipped rows buffers))
      × HaveLength n all
      × (length all ≤ num_rows)
  Sound skipped rows buffers (failed all) = MeetsAll grants × HaveGood reader n buffers → ⊥
  Sound skipped rows buffers (overran all) = HaveAtMost reader n buffers → ⊥

  later_Sound :
      (skipped skipped' : Bool) (rows rows' : List (List Bytes)) (buffer : Bytes)
      (buffers : List Bytes) (e : Ended)
      → rows' ++ coming skipped' rows' buffers ≡ rows ++ coming skipped rows (buffer ∷ buffers)
      → Sound skipped' rows' buffers e
      → Sound skipped rows (buffer ∷ buffers) e
  later_Sound skipped skipped' rows rows' buffer buffers (finished all) same s =
      (s.0 ∙ ap (take num_rows) same, s.1, s.2)
  later_Sound skipped skipped' rows rows' buffer buffers (failed all) same s =
      λ (met, good). s (met, good.1)
  later_Sound skipped skipped' rows rows' buffer buffers (overran all) same s = λ few. s few.1

  take-full :
      (rows more : List (List Bytes)) (k : ℕ) → length rows ≡ k → rows ≡ take k (rows ++ more)
  take-full [] more zero h = refl
  take-full [] more (suc k) h = absurd (omega (arith, h))
  take-full (row ∷ rows) more zero h = absurd (omega (arith, h))
  take-full (row ∷ rows) more (suc k) h =
      ap (λ t. row ∷ t) (take-full rows more k (omega (arith, h)))

  take-short : (rows : List (List Bytes)) (k : ℕ) → length rows ≤ k → rows ≡ take k (rows ++ [])
  take-short [] zero h = refl
  take-short [] (suc k) h = refl
  take-short (row ∷ rows) zero h = absurd (omega arith)
  take-short (row ∷ rows) (suc k) h = ap (λ t. row ∷ t) (take-short rows k (omega arith))

  coming-nil : (skipped : Bool) (rows : List (List Bytes)) → coming skipped rows [] ≡ []
  unfolding lines_of
  coming-nil skipped rows = elim (Bool-cases (heads skipped rows)) [
    | inl first ↦ rw first refl
    | inr other ↦ rw other refl
  ]

  abbrev all_fields : List Bytes → List (List Bytes)
  all_fields buffers = map (fields_of reader.delim reader.quote) (lines_of reader buffers)

  heads-true : (rows : List (List Bytes)) → heads true rows ≡ false
  heads-true rows =
      ap (λ b. drops_header reader && b) (and_false (length rows == 0))
      ∙ and_false (drops_header reader)

  heads-more :
      (skipped : Bool) (rows : List (List Bytes)) (row : List Bytes)
      → heads skipped (rows ++ row ∷ []) ≡ false
  heads-more skipped rows row =
      ap (λ b. drops_header reader && (b && not skipped))
        (ne→== (length (rows ++ row ∷ [])) 0 (λ e. omega (arith, e, length-append rows (row ∷ []))))
      ∙ and_false (drops_header reader)

  coming-rest :
      (skipped : Bool) (rows : List (List Bytes)) (buffers : List Bytes)
      → heads skipped rows ≡ false
      → coming skipped rows buffers ≡ all_fields buffers
  coming-rest skipped rows buffers h = rw h refl

  coming-header :
      (skipped : Bool) (rows : List (List Bytes)) (buffer : Bytes) (buffers : List Bytes)
      (line : Bytes)
      → data_line reader buffer ≡ some line
      → heads skipped rows ≡ true
      → coming skipped rows (buffer ∷ buffers) ≡ all_fields buffers
  unfolding lines_of
  coming-header skipped rows buffer buffers line found h = rw h (rw (found, lines_of) refl)

  coming-line :
      (skipped : Bool) (rows : List (List Bytes)) (buffer : Bytes) (buffers : List Bytes)
      (line : Bytes)
      → data_line reader buffer ≡ some line
      → heads skipped rows ≡ false
      → coming skipped rows (buffer ∷ buffers)
        ≡ fields_of reader.delim reader.quote line ∷ all_fields buffers
  unfolding lines_of
  coming-line skipped rows buffer buffers line found h = rw h (rw (found, lines_of) refl)

  -- The buffers behind the present one, from any rows.
  abbrev Continues : List Bytes → Type 0
  Continues buffers =
      (skipped : Bool) (rows : List (List Bytes))
      → HaveLength n rows
      → length rows ≤ num_rows
      → Sound skipped rows buffers (parse_rows grants reader num_rows n buffers skipped rows)

  module _ (buffer : Bytes) (buffers : List Bytes) (skipped : Bool) (rows : List (List Bytes))
      (have : HaveLength n rows) (few : length rows ≤ num_rows) (rest : Continues buffers)
      (free : leb num_rows (length rows) ≡ false) where
    abbrev Present : Type 0
    Present =
        Sound skipped rows (buffer ∷ buffers)
          (parse_rows grants reader num_rows n (buffer ∷ buffers) skipped rows)

    skip-Sound : data_line reader buffer ≡ none → Present
    unfolding parse_rows lines_of
    skip-Sound skip =
        rw (free, parse_rows)
          (rw (skip, parse_rows)
            (later_Sound skipped skipped rows rows buffer buffers _ (rw (skip, lines_of) refl)
              (rest skipped rows have few)))

    header-Sound :
        (line : Bytes) → data_line reader buffer ≡ some line → heads skipped rows ≡ true → Present
    unfolding parse_rows lines_of
    header-Sound line found first =
        rw (free, parse_rows)
          (rw (found, parse_rows)
            (rw (first, parse_rows)
              (later_Sound skipped true rows rows buffer buffers _
                (ap (λ c. rows ++ c)
                  (coming-rest true rows buffers (heads-true rows)
                    ∙ sym (coming-header skipped rows buffer buffers line found first)))
                (rest true rows have few))))

    line-Sound :
        (line : Bytes)
        → data_line reader buffer ≡ some line
        → heads skipped rows ≡ false
        → (p : Parsed) → parse_csv_line grants n reader.delim reader.quote line ≡ p
        → Judged grants n reader.delim reader.quote line p
        → Present
    unfolding parse_rows lines_of
    line-Sound line found other (accepted row) parsed judged =
        rw (free, parse_rows)
          (rw (found, parse_rows)
            (rw (other, parse_rows)
              (rw (parsed, parse_rows)
                (later_Sound skipped skipped rows (rows ++ row ∷ []) buffer buffers _
                  (ap (λ c. (rows ++ row ∷ []) ++ c)
                      (coming-rest skipped (rows ++ row ∷ []) buffers (heads-more skipped rows row))
                    ∙ append_assoc rows (row ∷ []) (all_fields buffers)
                    ∙ ap (λ r. rows ++ r ∷ all_fields buffers) judged.0
                    ∙ ap (λ c. rows ++ c)
                        (sym (coming-line skipped rows buffer buffers line found other)))
                  (rest skipped (rows ++ row ∷ []) (HaveLength-append n rows row have judged.1) (
                    omega (
                      arith,
                      length-append rows (row ∷ []),
                      leb→gt num_rows (length rows) free,
                    )))))))
    line-Sound line found other rejected parsed judged =
        rw (free, parse_rows)
          (rw (found, parse_rows)
            (rw (other, parse_rows)
              (rw (parsed, parse_rows)
                (λ (met, good). judged (met, subst (HasGood reader n) found good.0)))))
    line-Sound line found other overrun parsed judged =
        rw (free, parse_rows)
          (rw (found, parse_rows)
            (rw (other, parse_rows)
              (rw (parsed, parse_rows)
                (λ fits.
                  let fit : get_num_fields reader.delim reader.quote line ≤ n =
                    subst (HasAtMost reader n) found fits.0 in
                  omega (arith, fit, judged)))))

    present-Sound : length buffer < max_field_size → Present
    present-Sound short = elim (Option-cases (data_line reader buffer)) [
      | inl skip ↦ skip-Sound skip
      | inr (line, found) ↦ elim (Bool-cases (heads skipped rows)) [
        | inl first ↦ header-Sound line found first
        | inr other ↦
            let within : length line ≤ length buffer =
              subst (IsWithin (length buffer)) found (data_line-IsWithin reader buffer) in
            line-Sound line found other _ refl (
              parse_csv_line-Judged grants n reader.delim reader.quote line
                (omega (arith, within, short)) pos)
      ]
    ]

  pub parse_rows-Sound : (buffers : List Bytes) → AreShort buffers → Continues buffers
  unfolding parse_rows
  parse_rows-Sound [] short skipped rows have few = (
    take-short rows num_rows few
        ∙ ap (λ c. take num_rows (rows ++ c)) (sym (coming-nil skipped rows)),
    have,
    few,
  )
  parse_rows-Sound (buffer ∷ buffers) short skipped rows have few =
      elim (Bool-cases (leb num_rows (length rows))) [
        | inl full ↦
            rw (full, parse_rows)
              (
                take-full rows (coming skipped rows (buffer ∷ buffers)) num_rows
                    (omega (arith, leb→le num_rows (length rows) full, few)),
                have,
                few,
              )
        | inr free ↦
            present-Sound buffer buffers skipped rows have few (parse_rows-Sound buffers short.1)
              free short.0
      ]
