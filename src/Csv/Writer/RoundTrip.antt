-- ===== src/Csv/Writer/RoundTrip.antt =====
-- The writer and the reader of src/csvparser.c together: a row that was written is read back.
use mathlib.Core.List.{map, flat_map}
use solidc.Base.{
  ℕ, suc, ◌≤◌, ◌<◌, ◌≡◌, refl, sym, ap, ◌∙◌, inl, inr, Bool, true, false, not, ◌&&◌, ◌||◌, Option,
  some, List, [], ◌∷◌, ◌++◌, append_assoc, append-nil, ◌==◌, length, arith, length-map,
  length-append, Bool-cases, ==_refl,
}
use solidc.Csv.{Bytes, max_field_size, str_trim}
use solidc.Csv.Line.{accepted, parse_csv_line}
use solidc.Csv.Line.Fields.{inside_after, pieces}
use solidc.Csv.Line.Rows.{fields_of, verdict, verdict-exact, parse_csv_line_lem}
use solidc.Csv.Writer.{CsvWriter, strchr, field_needs_quoting, csvwriter_write_row}
use solidc.Csv.Writer.Text.{escape, quoted, content, field_text, tail_text, row_text}
use solidc.Csv.Writer.Rows.{after, csvwriter_write_row-fits}

or_false : (a b : Bool) → (a || b) ≡ false → (a ≡ false) × (b ≡ false)
or_false true b h = absurd (cc h)
or_false false b h = (refl, h)

and_false : (b : Bool) → (b && false) ≡ false
and_false true = refl
and_false false = refl

module _ (delim quote : ℕ) where
  -- The quote state behind a line and its pieces.
  abbrev scan : Bytes → Bool → Bytes → Bool × (Bytes × List Bytes)
  scan line inside field = (inside_after quote line inside, pieces delim quote line inside field)

  scan-quote :
      (line : Bytes) (inside : Bool) (field : Bytes)
      → scan (quote ∷ line) inside field ≡ scan line (not inside) field
  unfolding inside_after pieces
  scan-quote line inside field = rw (==_refl quote) refl

  scan-plain :
      (c : ℕ) (line : Bytes) (inside : Bool) (field : Bytes)
      → (c == quote) ≡ false
      → (c == delim && not inside) ≡ false
      → scan (c ∷ line) inside field ≡ scan line inside (field ++ c ∷ [])
  unfolding inside_after pieces
  scan-plain c line inside field h d = rw h (rw d refl)

  scan-inside :
      (text line field : Bytes)
      → strchr text quote ≡ false
      → scan (text ++ line) true field ≡ scan line true (field ++ text)
  unfolding strchr
  scan-inside [] line field h = ap (scan line true) (sym (append-nil field))
  scan-inside (c ∷ text) line field h =
      let (other, rest) = or_false (c == quote) (strchr text quote) h in
      scan-plain c (text ++ line) true field other (and_false (c == delim))
      ∙ scan-inside text line (field ++ c ∷ []) rest
      ∙ ap (scan line true) (append_assoc field (c ∷ []) text)

  scan-outside :
      (text line field : Bytes)
      → strchr text quote ≡ false
      → strchr text delim ≡ false
      → scan (text ++ line) false field ≡ scan line false (field ++ text)
  unfolding strchr
  scan-outside [] line field h d = ap (scan line false) (sym (append-nil field))
  scan-outside (c ∷ text) line field h d =
      let (other, rest) = or_false (c == quote) (strchr text quote) h in
      let (other', rest') = or_false (c == delim) (strchr text delim) d in
      scan-plain c (text ++ line) false field other (ap (λ b. b && true) other')
      ∙ scan-outside text line (field ++ c ∷ []) rest rest'
      ∙ ap (scan line false) (append_assoc field (c ∷ []) text)

  escape-same : (text : Bytes) → strchr text quote ≡ false → flat_map (escape quote) text ≡ text
  unfolding flat_map strchr
  escape-same [] h = refl
  escape-same (c ∷ text) h =
      let (other, rest) = or_false (c == quote) (strchr text quote) h in
      rw other (ap (λ t. c ∷ t) (escape-same text rest))

  scan-quoted :
      (text line field : Bytes)
      → strchr text quote ≡ false
      → scan (quoted quote text ++ line) false field ≡ scan line false (field ++ text)
  scan-quoted text line field h =
      scan-quote _ false field
      ∙ ap (λ t. scan t true field)
          (append_assoc (flat_map (escape quote) text) (quote ∷ []) line
            ∙ ap (λ t. t ++ quote ∷ line) (escape-same text h))
      ∙ scan-inside text (quote ∷ line) field h
      ∙ scan-quote line true (field ++ text)

  scan-delim :
      (line field : Bytes)
      → (delim == quote) ≡ false
      → scan (delim ∷ line) false field
        ≡ (let (inside, (first, others)) = scan line false [] in (inside, (field, first ∷ others)))
  unfolding inside_after pieces
  scan-delim line field h = rw h (rw (==_refl delim) refl)

-- Without quotes, and not changed by the removal of white space around it.
abbrev pub IsPlain : CsvWriter → Option Bytes → Type 0
IsPlain w field =
    (strchr (content field) w.quote ≡ false) × (str_trim (content field) ≡ content field)

abbrev pub ArePlain : CsvWriter → List (Option Bytes) → Type 0
ArePlain w [] = Unit
ArePlain w (field ∷ fields) = IsPlain w field × ArePlain w fields

module _ (w : CsvWriter) (apart : (w.delim == w.quote) ≡ false) where
  no_delim :
      (field : Option Bytes)
      → (w.quote_all || field_needs_quoting (content field) w.delim w.quote w.newline) ≡ false
      → strchr (content field) w.delim ≡ false
  unfolding field_needs_quoting
  no_delim field h =
      let rules =
        or_false w.quote_all (field_needs_quoting (content field) w.delim w.quote w.newline) h in
      let first =
        or_false (strchr (content field) w.delim || strchr (content field) w.quote)
          (strchr (content field) w.newline) rules.1 in
      (or_false (strchr (content field) w.delim) (strchr (content field) w.quote) first.0).0

  scan-field_text :
      (field : Option Bytes) (line : Bytes)
      → IsPlain w field
      → scan w.delim w.quote (field_text w field ++ line) false []
        ≡ scan w.delim w.quote line false (content field)
  unfolding field_text
  scan-field_text field line plain =
      elim (Bool-cases
        (w.quote_all || field_needs_quoting (content field) w.delim w.quote w.newline)) [
          | inl quotes ↦ rw quotes (scan-quoted w.delim w.quote (content field) line [] plain.0)
          | inr bare ↦
              rw bare
                (scan-outside w.delim w.quote (content field) line [] plain.0 (no_delim field bare))
        ]

  scan-tail_text :
      (field : Bytes) (fields : List (Option Bytes))
      → ArePlain w fields
      → scan w.delim w.quote (tail_text w fields) false field ≡ (false, (field, map content fields))
  unfolding tail_text inside_after pieces
  scan-tail_text field [] plain = refl
  scan-tail_text field (next ∷ fields) plain =
      scan-delim w.delim w.quote _ field apart
      ∙ ap (λ r. (r.0, (field, r.1.0 ∷ r.1.1)))
          (scan-field_text next (tail_text w fields) plain.0
            ∙ scan-tail_text (content next) fields plain.1)

  scan-row_text :
      (field : Option Bytes) (fields : List (Option Bytes))
      → ArePlain w (field ∷ fields)
      → scan w.delim w.quote (row_text w (field ∷ fields)) false []
        ≡ (false, (content field, map content fields))
  unfolding row_text
  scan-row_text field fields plain =
      scan-field_text field (tail_text w fields) plain.0
      ∙ scan-tail_text (content field) fields plain.1

  trims :
      (fields : List (Option Bytes))
      → ArePlain w fields
      → map str_trim (map content fields) ≡ map content fields
  trims [] plain = refl
  trims (field ∷ fields) plain =
      ap (λ t. t ∷ map str_trim (map content fields)) plain.0.1
      ∙ ap (λ t. content field ∷ t) (trims fields plain.1)

  -- `parse_csv_line` reads the text of the row.
  parse_csv_line-row_text :
      (grants : ℕ → Bool)
      → ((k : ℕ) → grants k ≡ true)
      → (field : Option Bytes) (fields : List (Option Bytes)) → ArePlain w (field ∷ fields)
      → length (row_text w (field ∷ fields)) < max_field_size
      → parse_csv_line grants (suc (length fields)) w.delim w.quote (row_text w (field ∷ fields))
        ≡ accepted (map content (field ∷ fields))
  parse_csv_line-row_text grants all field fields plain short =
      let found = scan-row_text field fields plain in
      let read : fields_of w.delim w.quote (row_text w (field ∷ fields))
          ≡ map content (field ∷ fields) =
        ap (λ r. map str_trim (r.1.0 ∷ r.1.1)) found ∙ trims (field ∷ fields) plain in
      parse_csv_line_lem grants (suc (length fields)) w.delim w.quote _ short all
        (ap (λ r. r.0) found)
      ∙ ap (verdict grants (suc (length fields))) read
      ∙ verdict-exact grants (suc (length fields)) (map content (field ∷ fields))
          (ap suc (length-map content fields))

  -- When csvwriter_write_row writes a row of one field or more, whose fields have no quote in them and no
  -- white space around them, on a stream without an error that has the room and takes the flush, it
  -- returns true, and parse_csv_line reads the text that it has written before the newline as the
  -- fields, NULL as the empty one. The delimiter is not the quote, the reader has the same settings and
  -- expects as many fields, its arena meets all requests, and the text is shorter than the buffer of a
  -- field.
  pub parse_csv_line-csvwriter_write_row :
      (grants : ℕ → Bool)
      → ((k : ℕ) → grants k ≡ true)
      → (field : Option Bytes) (fields : List (Option Bytes)) → ArePlain w (field ∷ fields)
      → length (row_text w (field ∷ fields)) < max_field_size
      → w.stream.error ≡ false
      → length (row_text w (field ∷ fields)) < w.stream.left
      → (w.flush && not w.stream.syncs) ≡ false
      → (text : Bytes) × (csvwriter_write_row (some w) (some (field ∷ fields)) (suc (length fields))
          ≡ some (true, some (after (text ++ w.newline ∷ []) w.stream)))
        × (parse_csv_line grants (suc (length fields)) w.delim w.quote text
            ≡ accepted (map content (field ∷ fields)))
  parse_csv_line-csvwriter_write_row grants all field fields plain short clean room flushes =
      let text = row_text w (field ∷ fields) in
      let fits : length (text ++ w.newline ∷ []) ≤ w.stream.left =
        omega (arith, length-append text (w.newline ∷ []), room) in
      (
        text,
        csvwriter_write_row-fits w field fields clean fits flushes,
        parse_csv_line-row_text grants all field fields plain short,
      )
