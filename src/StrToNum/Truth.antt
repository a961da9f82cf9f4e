-- ===== src/StrToNum/Truth.antt =====
-- str_to_bool of src/str_to_num.c.
use mathlib.Core.Path.{ap₂}
use solidc.Base.{
  ℕ, ◌+◌, ◌≡◌, ◌≢◌, refl, ap, ◌⊎◌, inl, inr, Bool, true, false, ◌&&◌, some, List, [], ◌∷◌, map,
  arith, leb, ◌==◌, if◌then◌else◌, Bool-cases, ==_refl,
}
use solidc.StrToNum.{success, invalid, bool_mappings, find_mapping, str_to_bool}

abbrev pub lower : ℕ → ℕ
lower c = if leb 65 c && leb c 90 then c + 32 else c

abbrev pub same_text : List ℕ → List ℕ → Bool
same_text [] [] = true
same_text [] (d ∷ t) = false
same_text (c ∷ s) [] = false
same_text (c ∷ s) (d ∷ t) = (c == d) && same_text s t

same_text-eq : (s t : List ℕ) → same_text s t ≡ true → s ≡ t
same_text-eq [] [] h = refl
same_text-eq [] (d ∷ t) h = cc
same_text-eq (c ∷ s) [] h = cc
same_text-eq (c ∷ s) (d ∷ t) h =
    let e : (c ≡ d) × (same_text s t ≡ true) = ground arith in ap₂ ◌∷◌ e.0 (same_text-eq s t e.1)

same_text_refl : (s : List ℕ) → same_text s s ≡ true
same_text_refl [] = refl
same_text_refl (c ∷ s) = rw (==_refl c) (same_text_refl s)

same_text-ne : (s t : List ℕ) → same_text s t ≡ false → s ≢ t
same_text-ne s t h e = cc (h, ap (λ u. same_text s u) e, same_text_refl s)

-- The table gives `value` to the text, or does not have it.
abbrev pub Listed : List ℕ → Bool → List (List ℕ × Bool) → Type 0
Listed s value [] = true ≡ false
Listed s value ((name, v) ∷ rest) = ((s ≡ name) × (value ≡ v)) ⊎ Listed s value rest

abbrev pub Unlisted : List ℕ → List (List ℕ × Bool) → Type 0
Unlisted s [] = Unit
Unlisted s ((name, v) ∷ rest) = (s ≢ name) × Unlisted s rest

-- Its texts have no upper-case letter.
abbrev AreLower : List (List ℕ × Bool) → Type 0
AreLower [] = Unit
AreLower ((name, v) ∷ rest) = (map lower name ≡ name) × AreLower rest

module _ (strcasecmp : List ℕ → List ℕ → Bool)
    (compares : (s t : List ℕ) → strcasecmp s t ≡ same_text (map lower s) (map lower t))
    (s : List ℕ) where
  find_mapping_lem :
      (table : List (List ℕ × Bool))
      → AreLower table
      → ((value : Bool) × (find_mapping strcasecmp s table ≡ success value)
          × Listed (map lower s) value table)
        ⊎ ((find_mapping strcasecmp s table ≡ invalid) × Unlisted (map lower s) table)
  unfolding find_mapping
  find_mapping_lem [] h = inr (refl, tt)
  find_mapping_lem ((name, v) ∷ rest) h = elim (Bool-cases (same_text (map lower s) name)) [
    | inl found ↦ inl (
      v,
      rw (compares s name, h.0, found) refl,
      inl (same_text-eq (map lower s) name found, refl),
    )
    | inr other ↦ elim (find_mapping_lem rest h.1) [
      | inl (value, e, listed) ↦ inl (value, rw (compares s name, h.0, other) e, inr listed)
      | inr (e, unlisted) ↦
          inr
            (rw (compares s name, h.0, other) e, (same_text-ne (map lower s) name other, unlisted))
    ]
  ]

  -- Where strcasecmp compares two texts up to the case of their letters, str_to_bool with somewhere to
  -- write gives a value that the table has for the text in lower case, or refuses a text that the table
  -- does not have.
  pub str_to_bool_lem :
      ((value : Bool) × (str_to_bool strcasecmp (some s) true ≡ success value)
        × Listed (map lower s) value bool_mappings)
      ⊎ ((str_to_bool strcasecmp (some s) true ≡ invalid) × Unlisted (map lower s) bool_mappings)
  unfolding str_to_bool
  str_to_bool_lem =
      find_mapping_lem bool_mappings
        (refl, (refl, (refl, (refl, (refl, (refl, (refl, (refl, tt))))))))
