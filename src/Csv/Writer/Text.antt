-- ===== src/Csv/Writer/Text.antt =====
-- What the writer of src/csvparser.c puts on a stream, as one text.
use mathlib.Core.List.{flat_map}
use solidc.Base.{
  ℕ, ◌+◌, ◌<◌, ◌≡◌, refl, sym, ap, ◌∙◌, inl, inr, true, false, ◌||◌, Option, none, some, List, [],
  ◌∷◌, ◌++◌, ◌==◌, if◌then◌else◌, arith, Bool-cases, lt→ltb,
}
use solidc.Csv.{Bytes}
use solidc.Csv.Writer.{
  Stream, Io, ◌and_then◌, fputc, fputs, CsvWriter, field_needs_quoting, write_escaped,
  write_quoted_field, write_single_field, write_fields,
}

-- A quote is doubled.
abbrev pub escape : ℕ → ℕ → Bytes
escape quote c = if c == quote then quote ∷ quote ∷ [] else c ∷ []

abbrev pub quoted : ℕ → Bytes → Bytes
quoted quote field = quote ∷ (flat_map (escape quote) field ++ quote ∷ [])

-- NULL stands for the empty field.
abbrev pub content : Option Bytes → Bytes
content none = []
content (some field) = field

unfoldable pub field_text : CsvWriter → Option Bytes → Bytes
field_text w field =
    if w.quote_all || field_needs_quoting (content field) w.delim w.quote w.newline
    then quoted w.quote (content field)
    else content field

unfoldable pub tail_text : CsvWriter → List (Option Bytes) → Bytes
tail_text w [] = []
tail_text w (field ∷ fields) = w.delim ∷ (field_text w field ++ tail_text w fields)

-- The fields of a row, with delimiters between them.
unfoldable pub row_text : CsvWriter → List (Option Bytes) → Bytes
row_text w [] = []
row_text w (field ∷ fields) = field_text w field ++ tail_text w fields

pub and_then-ap :
    (io : Io) (k k' : Stream → Io)
    → ((s : Stream) → k s ≡ k' s)
    → (io and_then k) ≡ (io and_then k')
and_then-ap (true, s) k k' h = h s
and_then-ap (false, s) k k' h = refl

and_then_true : (io : Io) → (io and_then λ s. (true, s)) ≡ io
and_then_true (true, s) = refl
and_then_true (false, s) = refl

pub and_then_assoc :
    (io : Io) (k l : Stream → Io) → ((io and_then k) and_then l) ≡ (io and_then λ s. k s and_then l)
and_then_assoc (true, s) k l = refl
and_then_assoc (false, s) k l = refl

pub fputs-append :
    (xs ys : Bytes) (s : Stream) → fputs (xs ++ ys) s ≡ (fputs xs s and_then fputs ys)
unfolding fputs
fputs-append [] ys s = refl
fputs-append (x ∷ xs) ys s =
    and_then-ap (fputc x s) _ _ (fputs-append xs ys)
    ∙ sym (and_then_assoc (fputc x s) (fputs xs) (fputs ys))

pub fputs-fputc : (c : ℕ) (s : Stream) → fputc c s ≡ fputs (c ∷ []) s
unfolding fputs
fputs-fputc c s = sym (and_then_true (fputc c s))

write_escaped-fputs :
    (field : Bytes) (quote : ℕ) (s : Stream)
    → write_escaped field quote s ≡ fputs (flat_map (escape quote) field) s
unfolding write_escaped fputs flat_map
write_escaped-fputs [] quote s = refl
write_escaped-fputs (c ∷ field) quote s = elim (Bool-cases (c == quote)) [
  | inl same ↦ rw same (
      and_then_assoc (fputc quote s) _ _
      ∙ and_then-ap (fputc quote s) _ _
          (λ t. and_then-ap (fputc quote t) _ _ (write_escaped-fputs field quote)))
  | inr other ↦ rw other (and_then-ap (fputc c s) _ _ (write_escaped-fputs field quote))
]

write_quoted_field-fputs :
    (field : Bytes) (quote : ℕ) (s : Stream)
    → write_quoted_field field quote s ≡ fputs (quoted quote field) s
unfolding write_quoted_field fputs
write_quoted_field-fputs field quote s = and_then-ap (fputc quote s) _ _ (λ t.
    ap (λ io. io and_then fputc quote) (write_escaped-fputs field quote t)
    ∙ and_then-ap (fputs _ t) _ _ (fputs-fputc quote)
    ∙ sym (fputs-append (flat_map (escape quote) field) (quote ∷ []) t))

write_single_field-fputs :
    (w : CsvWriter) (field : Option Bytes) (s : Stream)
    → write_single_field field w.quote_all w.delim w.quote w.newline s
      ≡ fputs (field_text w field) s
unfolding write_single_field field_text
write_single_field-fputs w none s =
    elim (Bool-cases (w.quote_all || field_needs_quoting [] w.delim w.quote w.newline)) [
      | inl quotes ↦ rw quotes (write_quoted_field-fputs [] w.quote s)
      | inr plain ↦ rw plain refl
    ]
write_single_field-fputs w (some field) s =
    elim (Bool-cases (w.quote_all || field_needs_quoting field w.delim w.quote w.newline)) [
      | inl quotes ↦ rw quotes (write_quoted_field-fputs field w.quote s)
      | inr plain ↦ rw plain refl
    ]

write_fields-tail :
    (w : CsvWriter) (i : ℕ) (fields : List (Option Bytes)) (s : Stream)
    → 0 < i
    → write_fields w i fields s ≡ fputs (tail_text w fields) s
unfolding write_fields tail_text fputs
write_fields-tail w i [] s h = refl
write_fields-tail w i (field ∷ fields) s h = rw (lt→ltb 0 i h) (
    and_then-ap (fputc w.delim s) _ _ (λ t.
      ap (λ io. io and_then write_fields w (i + 1) fields) (write_single_field-fputs w field t)
      ∙ and_then-ap (fputs (field_text w field) t) _ _
          (λ u. write_fields-tail w (i + 1) fields u (omega arith))
      ∙ sym (fputs-append (field_text w field) (tail_text w fields) t)))

pub write_fields-row_text :
    (w : CsvWriter) (field : Option Bytes) (fields : List (Option Bytes)) (s : Stream)
    → write_fields w 0 (field ∷ fields) s ≡ fputs (row_text w (field ∷ fields)) s
unfolding write_fields row_text
write_fields-row_text w field fields s =
    ap (λ io. io and_then write_fields w (0 + 1) fields) (write_single_field-fputs w field s)
    ∙ and_then-ap (fputs (field_text w field) s) _ _
        (λ t. write_fields-tail w 1 fields t (omega arith))
    ∙ sym (fputs-append (field_text w field) (tail_text w fields) s)
