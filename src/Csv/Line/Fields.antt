-- ===== src/Csv/Line/Fields.antt =====
-- parse_csv_line of src/csvparser.c, and get_num_fields, against the division of a line at its
-- delimiters.
use solidc.Base.{
  ℕ, suc, ◌+◌, ◌<◌, ◌≡◌, refl, sym, ◌∙◌, ◌⊎◌, inl, inr, Bool, true, false, not, ◌&&◌, List, [], ◌∷◌,
  ◌++◌, leb, ◌==◌, if◌then◌else◌, length, arith, length-append, Bool-cases, leb→le,
}
use solidc.Csv.{Bytes, max_field_size, str_trim}
use solidc.Csv.Line.{
  count_delims, get_num_fields, Parsed, rejected, overrun, next, stop, store_field, parse_round,
  finish_row, parse_loop,
}

-- The quote state behind a line: each quote character turns it.
unfoldable pub inside_after : ℕ → Bytes → Bool → Bool
inside_after quote [] inside = inside
inside_after quote (c ∷ line) inside =
    inside_after quote line (if c == quote then not inside else inside)

-- The bytes of a line without its quotes, divided at the delimiters outside of quotes: the first
-- piece, which goes behind `field`, and the others.
unfoldable pub pieces : ℕ → ℕ → Bytes → Bool → Bytes → Bytes × List Bytes
pieces delim quote [] inside field = (field, [])
pieces delim quote (c ∷ line) inside field =
    let turned = pieces delim quote line (not inside) field in
    let (first, others) = pieces delim quote line inside [] in
    let longer = pieces delim quote line inside (field ++ c ∷ []) in
    if c == quote
    then turned
    else if c == delim && not inside
    then (field, first ∷ others)
    else longer

module _ (delim quote : ℕ) where
  -- The number of delimiters outside of quotes adds up.
  count_delims_lem :
      (line : Bytes) (inside : Bool) (field : Bytes) (n : ℕ)
      → count_delims delim quote line inside n
        ≡ length ((pieces delim quote line inside field).1) + n
  unfolding count_delims pieces
  count_delims_lem [] inside field n = omega arith
  count_delims_lem (c ∷ line) inside field n = ground (
    arith,
    count_delims_lem line (not inside) field n,
    count_delims_lem line inside [] (n + 1),
    count_delims_lem line inside (field ++ c ∷ []) n,
  )

  pub get_num_fields-pieces :
      (c : ℕ) (line : Bytes)
      → get_num_fields delim quote (c ∷ line)
        ≡ suc (length ((pieces delim quote (c ∷ line) false []).1))
  unfolding get_num_fields
  get_num_fields-pieces c line = omega (arith, count_delims_lem (c ∷ line) false [] 0)

module _ (grants : ℕ → Bool) (n : ℕ) where
  -- The pieces are stored one after the other, where `inside` is the quote state behind the line.
  unfoldable pub store_all : Bool → Bytes → List Bytes → List Bytes → Parsed
  store_all inside part [] fields = finish_row grants n inside part fields
  store_all inside part (more ∷ rest) fields = elim (store_field grants n false part fields) [
    | stop parsed ↦ parsed
    | next _ _ fields' ↦ store_all inside more rest fields'
  ]

  store_field-cases :
      (inside : Bool) (field : Bytes) (fields : List Bytes)
      → ((p : Parsed) × (store_field grants n inside field fields ≡ stop p))
        ⊎ ((fields' : List Bytes) × (store_field grants n inside field fields
              ≡ next inside [] fields'))
  unfolding store_field
  store_field-cases inside field fields = elim (Bool-cases (leb n (length fields))) [
    | inl full ↦ inl (overrun, rw full refl)
    | inr free ↦ elim (Bool-cases (grants (length (str_trim field) + 1))) [
      | inl met ↦ inr (fields ++ str_trim field ∷ [], rw free (rw met refl))
      | inr refused ↦ inl (rejected, rw free (rw refused refl))
    ]
  ]

  module _ (delim quote : ℕ) where
    round-quote :
        (c : ℕ) (inside : Bool) (field : Bytes) (fields : List Bytes)
        → (c == quote) ≡ true
        → parse_round grants n delim quote c inside field fields ≡ next (not inside) field fields
    unfolding parse_round
    round-quote c inside field fields e = rw e refl

    round-delim :
        (c : ℕ) (inside : Bool) (field : Bytes) (fields : List Bytes)
        → (c == quote) ≡ false
        → (c == delim && not inside) ≡ true
        → parse_round grants n delim quote c inside field fields
          ≡ store_field grants n inside field fields
    unfolding parse_round
    round-delim c inside field fields e d = rw e (rw d refl)

    round-other :
        (c : ℕ) (inside : Bool) (field : Bytes) (fields : List Bytes)
        → (c == quote) ≡ false
        → (c == delim && not inside) ≡ false
        → length field < 1023
        → parse_round grants n delim quote c inside field fields
          ≡ next inside (field ++ c ∷ []) fields
    unfolding parse_round
    round-other c inside field fields e d short = elim (Bool-cases (leb 1023 (length field))) [
      | inl long ↦ absurd (omega (arith, leb→le 1023 (length field) long))
      | inr other ↦ rw e (rw d (rw other refl))
    ]

    loop-next :
        (c : ℕ) (line : Bytes) (inside i : Bool) (field f : Bytes) (fields fs : List Bytes)
        → parse_round grants n delim quote c inside field fields ≡ next i f fs
        → parse_loop grants n delim quote (c ∷ line) inside field fields
          ≡ parse_loop grants n delim quote line i f fs
    unfolding parse_loop
    loop-next c line inside i field f fields fs e = rw (e, parse_loop) refl

    loop-stop :
        (c : ℕ) (line : Bytes) (inside : Bool) (field : Bytes) (fields : List Bytes) (p : Parsed)
        → parse_round grants n delim quote c inside field fields ≡ stop p
        → parse_loop grants n delim quote (c ∷ line) inside field fields ≡ p
    unfolding parse_loop
    loop-stop c line inside field fields p e = rw (e, parse_loop) refl

    -- The pieces of a line are stored in turn.
    abbrev Divides : Bytes → Bool → Bytes → List Bytes → Type 0
    Divides line inside field fields =
        parse_loop grants n delim quote line inside field fields
        ≡ store_all (inside_after quote line inside) ((pieces delim quote line inside field).0)
            ((pieces delim quote line inside field).1) fields

    divide-quote :
        (c : ℕ) (line : Bytes) (inside : Bool) (field : Bytes) (fields : List Bytes)
        → (c == quote) ≡ true
        → Divides line (not inside) field fields
        → Divides (c ∷ line) inside field fields
    unfolding pieces inside_after
    divide-quote c line inside field fields e rest =
        loop-next c line inside (not inside) field field fields fields
          (round-quote c inside field fields e)
        ∙ rw e rest

    divide-other :
        (c : ℕ) (line : Bytes) (inside : Bool) (field : Bytes) (fields : List Bytes)
        → (c == quote) ≡ false
        → (c == delim && not inside) ≡ false
        → length field < 1023
        → Divides line inside (field ++ c ∷ []) fields
        → Divides (c ∷ line) inside field fields
    unfolding pieces inside_after
    divide-other c line inside field fields e d short rest =
        loop-next c line inside inside field (field ++ c ∷ []) fields fields
          (round-other c inside field fields e d short)
        ∙ rw e (rw d rest)

    store_all-next :
        (inside : Bool) (part more : Bytes) (rest fields fs : List Bytes) (i : Bool) (f : Bytes)
        → store_field grants n false part fields ≡ next i f fs
        → store_all inside part (more ∷ rest) fields ≡ store_all inside more rest fs
    unfolding store_all
    store_all-next inside part more rest fields fs i f e = rw (e, store_all) refl

    store_all-stop :
        (inside : Bool) (part more : Bytes) (rest fields : List Bytes) (p : Parsed)
        → store_field grants n false part fields ≡ stop p
        → store_all inside part (more ∷ rest) fields ≡ p
    unfolding store_all
    store_all-stop inside part more rest fields p e = rw (e, store_all) refl

    divide-delim :
        (c : ℕ) (line : Bytes) (inside : Bool) (field : Bytes) (fields : List Bytes)
        → (c == quote) ≡ false
        → (c == delim && not inside) ≡ true
        → ((fs : List Bytes) → Divides line false [] fs)
        → Divides (c ∷ line) inside field fields
    unfolding pieces inside_after
    divide-delim c line true field fields e d rest = absurd (outside (c == delim) d)
      where
        outside : (b : Bool) → (b && false) ≡ true → ⊥
        outside true h = cc h
        outside false h = cc h
    divide-delim c line false field fields e d rest = elim (store_field-cases false field fields) [
      | inl (p, s) ↦
          loop-stop c line false field fields p (round-delim c false field fields e d ∙ s)
          ∙ rw e (rw d (sym (store_all-stop _ field _ _ fields p s)))
      | inr (fs, s) ↦
          loop-next c line false false field [] fields fs (round-delim c false field fields e d ∙ s)
          ∙ rest fs
          ∙ rw e (rw d (sym (store_all-next _ field _ _ fields fs false [] s)))
    ]

    -- A line that is read with fgets is so short that no field of it is too long.
    pub parse_loop-store_all :
        (line : Bytes) (inside : Bool) (field : Bytes) (fields : List Bytes)
        → length field + length line < max_field_size
        → Divides line inside field fields
    unfolding parse_loop pieces inside_after store_all
    parse_loop-store_all [] inside field fields h = refl
    parse_loop-store_all (c ∷ line) inside field fields h = elim (Bool-cases (c == quote)) [
      | inl quoted ↦
          divide-quote c line inside field fields quoted
            (parse_loop-store_all line (not inside) field fields (omega arith))
      | inr plain ↦ elim (Bool-cases (c == delim && not inside)) [
        | inl ends ↦
            divide-delim c line inside field fields plain ends
              (λ fs. parse_loop-store_all line false [] fs (omega arith))
        | inr goes ↦ divide-other c line inside field fields plain goes (omega arith) (
            parse_loop-store_all line inside (field ++ c ∷ []) fields
              (omega (arith, length-append field (c ∷ []))))
      ]
    ]
