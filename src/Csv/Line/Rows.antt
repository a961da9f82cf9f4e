-- ===== src/Csv/Line/Rows.antt =====
-- What parse_csv_line of src/csvparser.c makes of a line, and when it stays inside the array of fields.
use mathlib.Core.List.{map}
use solidc.Base.{
  ℕ, suc, ◌+◌, ◌*◌, ◌^◌, ◌%◌, ◌≤◌, ◌<◌, ◌≡◌, refl, sym, ap, ◌∙◌, inl, inr, Bool, true, false, List,
  [], ◌∷◌, ◌++◌, append_assoc, leb, ltb, ◌==◌, if◌then◌else◌, length, arith, length-append,
  length-map, max, Bool-cases, leb→le, leb→gt, ==→eq, ==_refl, ltb→lt, ltb→ge,
}
use solidc.Csv.{Bytes, max_field_size, str_trim}
use solidc.Csv.Line.{
  get_num_fields, Parsed, accepted, rejected, overrun, store_field, finish_row, parse_csv_line,
}
use solidc.Csv.Line.Fields.{
  inside_after, pieces, get_num_fields-pieces, store_all, parse_loop-store_all,
}

abbrev pub fields_of : ℕ → ℕ → Bytes → List Bytes
fields_of delim quote line =
    let (first, others) = pieces delim quote line false [] in map str_trim (first ∷ others)

-- A write past `n` fields happens only when there are more pieces, and a row that is accepted is that
-- of all the pieces.
abbrev pub Outcome : ℕ → List Bytes → Parsed → Type 0
Outcome n row overrun = n < length row
Outcome n row rejected = Unit
Outcome n row (accepted row') = (row' ≡ row) × (length row ≡ n)

module _ (grants : ℕ → Bool) (n : ℕ) where
  store_all-Outcome :
      (inside : Bool) (part : Bytes) (rest fields : List Bytes)
      → Outcome n
          (fields ++ map str_trim (part ∷ rest))
          (store_all grants n inside part rest fields)
  unfolding store_all finish_row store_field
  store_all-Outcome true part [] fields = tt
  store_all-Outcome false part [] fields = elim (Bool-cases (leb n (length fields))) [
    | inl full ↦
        rw full
          (omega (arith, leb→le n (length fields) full, length-append fields (str_trim part ∷ [])))
    | inr free ↦ elim (Bool-cases (grants (length (str_trim part) + 1))) [
      | inr refused ↦ rw free (rw refused tt)
      | inl met ↦ elim (Bool-cases (length (fields ++ str_trim part ∷ []) == n)) [
        | inr other ↦ rw free (rw met (rw other tt))
        | inl same ↦
            rw free (rw met (rw same (refl, ==→eq (length (fields ++ str_trim part ∷ [])) n same)))
      ]
    ]
  ]
  store_all-Outcome inside part (more ∷ rest) fields = elim (Bool-cases (leb n (length fields))) [
    | inl full ↦
        rw (full, store_all)
          (omega (
            arith,
            leb→le n (length fields) full,
            length-append fields (map str_trim (part ∷ more ∷ rest)),
          ))
    | inr free ↦ elim (Bool-cases (grants (length (str_trim part) + 1))) [
      | inr refused ↦ rw (free, store_all) (rw refused tt)
      | inl met ↦
          rw (free, store_all)
            (rw met (
              rw (sym (append_assoc fields (str_trim part ∷ []) (map str_trim (more ∷ rest))))
                (store_all-Outcome inside more rest (fields ++ str_trim part ∷ []))))
    ]
  ]

  -- With every request met, a row is as long as it must be, or too long, or too short.
  abbrev pub verdict : List Bytes → Parsed
  verdict row =
      if ltb n (length row) then overrun else if length row == n then accepted row else rejected

  verdict-long : (row : List Bytes) → n < length row → verdict row ≡ overrun
  verdict-long row h = elim (Bool-cases (ltb n (length row))) [
    | inl long ↦ rw long refl
    | inr short ↦ absurd (omega (arith, ltb→ge n (length row) short))
  ]

  verdict-short :
      (row : List Bytes)
      → length row ≤ n
      → verdict row ≡ (if length row == n then accepted row else rejected)
  verdict-short row h = elim (Bool-cases (ltb n (length row))) [
    | inl long ↦ absurd (omega (arith, ltb→lt n (length row) long))
    | inr short ↦ rw short refl
  ]

  pub verdict-exact : (row : List Bytes) → length row ≡ n → verdict row ≡ accepted row
  verdict-exact row h =
      verdict-short row (omega (arith, h))
      ∙ ap (λ k. if k then accepted row else rejected) (ap (λ m. m == n) h ∙ ==_refl n)

  store_all-verdict :
      ((k : ℕ) → grants k ≡ true)
      → (part : Bytes) (rest fields : List Bytes)
      → store_all grants n false part rest fields ≡ verdict (fields ++ map str_trim (part ∷ rest))
  unfolding store_all finish_row store_field
  store_all-verdict all part [] fields = elim (Bool-cases (leb n (length fields))) [
    | inl full ↦ rw full (
        sym (
          verdict-long (fields ++ str_trim part ∷ []) (
            omega
              (arith, leb→le n (length fields) full, length-append fields (str_trim part ∷ [])))))
    | inr free ↦ rw free (
        rw (all (length (str_trim part) + 1)) (
          sym (
            verdict-short (fields ++ str_trim part ∷ []) (
              omega (
                arith,
                leb→gt n (length fields) free,
                length-append fields (str_trim part ∷ []),
              )))))
  ]
  store_all-verdict all part (more ∷ rest) fields = elim (Bool-cases (leb n (length fields))) [
    | inl full ↦
        rw (full, store_all)
          (sym (
            verdict-long (fields ++ map str_trim (part ∷ more ∷ rest)) (
              omega (
                arith,
                leb→le n (length fields) full,
                length-append fields (map str_trim (part ∷ more ∷ rest)),
              ))))
    | inr free ↦
        rw (free, store_all)
          (rw (all (length (str_trim part) + 1)) (
            store_all-verdict all more rest (fields ++ str_trim part ∷ [])
            ∙ ap verdict (append_assoc fields (str_trim part ∷ []) (map str_trim (more ∷ rest)))))
  ]

  pub parse_csv_line-fields_of :
      (delim quote : ℕ) (line : Bytes)
      → length line < max_field_size
      → Outcome n (fields_of delim quote line) (parse_csv_line grants n delim quote line)
  unfolding parse_csv_line
  parse_csv_line-fields_of delim quote line short = elim (Bool-cases (grants (n * 8 % 2 ^ 64))) [
    | inl met ↦ rw met (
        rw (parse_loop-store_all grants n delim quote line false [] [] (omega (arith, short)))
          (store_all-Outcome _ _ _ []))
    | inr refused ↦ rw refused tt
  ]

  module _ (delim quote c : ℕ) (line : Bytes) (short : length (c ∷ line) < max_field_size) where
    -- On a line that is not empty and shorter than the buffer of a field, parse_csv_line writes past the
    -- array of fields only if get_num_fields counts more fields than it has; and if it returns true, then
    -- get_num_fields counts as many, and the row has the pieces between the delimiters that stand
    -- outside of quotes, without the quotes and with the white space around them removed.
    pub parse_csv_line-Outcome :
        Outcome n
          (fields_of delim quote (c ∷ line))
          (parse_csv_line grants n delim quote (c ∷ line))
        × (length (fields_of delim quote (c ∷ line)) ≡ get_num_fields delim quote (c ∷ line))
    parse_csv_line-Outcome = (
      parse_csv_line-fields_of delim quote (c ∷ line) short,
      ap suc (length-map str_trim _) ∙ sym (get_num_fields-pieces delim quote c line),
    )

  pub parse_csv_line_lem :
      (delim quote : ℕ) (line : Bytes)
      → length line < max_field_size
      → ((k : ℕ) → grants k ≡ true)
      → inside_after quote line false ≡ false
      → parse_csv_line grants n delim quote line ≡ (
          let row = fields_of delim quote line in
          if ltb n (length row)
          then overrun
          else if length row == n
          then accepted row
          else rejected)
  unfolding parse_csv_line
  parse_csv_line_lem delim quote line short all paired = rw (all (n * 8 % 2 ^ 64)) (
      parse_loop-store_all grants n delim quote line false [] [] (omega (arith, short))
      ∙ rw paired (store_all-verdict all _ _ []))

  -- `parse_csv_line` on any line.
  abbrev pub Counted : ℕ → Parsed → Type 0
  Counted count overrun = n < count
  Counted count rejected = Unit
  Counted count (accepted row) = length row ≡ n

  Outcome-Counted :
      (row : List Bytes) (count : ℕ) (p : Parsed)
      → length row ≤ max 1 count
      → 0 < n
      → Outcome n row p
      → Counted count p
  Outcome-Counted row count overrun h pos o = omega (arith, h, pos, o)
  Outcome-Counted row count rejected h pos o = tt
  Outcome-Counted row count (accepted row') h pos o = ap length o.0 ∙ o.1

  pub parse_csv_line-Counted :
      (delim quote : ℕ) (line : Bytes)
      → length line < max_field_size
      → 0 < n
      → Counted (get_num_fields delim quote line) (parse_csv_line grants n delim quote line)
  unfolding pieces
  parse_csv_line-Counted delim quote [] short pos =
      Outcome-Counted (str_trim [] ∷ []) (get_num_fields delim quote []) _ (omega arith) pos
        (parse_csv_line-fields_of delim quote [] short)
  parse_csv_line-Counted delim quote (c ∷ line) short pos =
      let (outcome, count) = parse_csv_line-Outcome delim quote c line short in
      Outcome-Counted _ _ _ (omega (arith, count)) pos outcome
