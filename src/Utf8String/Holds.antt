-- ===== src/Utf8String/Holds.antt =====
-- What a `utf8_string` of src/unicode.c holds: a sequence of scalar values.
use solidc.Base.{
  ℕ, ◌+◌, ◌-◌, ◌≤◌, ◌<◌, ◌≡◌, refl, sym, ap, ◌∙◌, ◌⊎◌, inl, inr, Bool, false, none, some, List, [],
  ◌∷◌, ◌++◌, append_assoc, arith, ltb, size_max, length, take, Bool-cases, tests,
}
use solidc.Unicode.{IsScalar, ucp_to_utf8, utf8_valid_byte_count, utf8_count_codepoints}
use solidc.Unicode.Encode.{ucp_to_utf8_lem}
use solidc.Unicode.Valid.{AreScalars, encode_all, encode_all-is_valid_utf8}
use solidc.Unicode.Count.{utf8_valid_byte_count-length, utf8_count_codepoints-encode_all}
use solidc.Utf8String.{Utf8String, struct_size, utf8_string_alloc, utf8_new}

-- `s` holds the scalar values `cps`: their encodings, their number, and room for them.
pub record Holds (s : Utf8String) (cps : List ℕ) : Type 0 where
  pub scalars : AreScalars cps
  pub bytes_eq : s.bytes ≡ encode_all cps
  pub length_eq : s.length ≡ length (encode_all cps)
  pub count_eq : s.count ≡ length cps
  pub room : s.length ≤ s.capacity
  pub small : s.capacity + struct_size + 1 ≤ size_max

pub take-length : (xs : List ℕ) → take (length xs) xs ≡ xs
take-length [] = refl
take-length (x ∷ xs) = ap (λ t. x ∷ t) (take-length xs)

pub AreScalars-append : (xs ys : List ℕ) → AreScalars xs → AreScalars ys → AreScalars (xs ++ ys)
AreScalars-append [] ys h k = k
AreScalars-append (x ∷ xs) ys h k = (h.0, h.1, AreScalars-append xs ys h.2 k)

pub AreScalars-left : (xs ys : List ℕ) → AreScalars (xs ++ ys) → AreScalars xs
AreScalars-left [] ys h = tt
AreScalars-left (x ∷ xs) ys h = (h.0, h.1, AreScalars-left xs ys h.2)

pub AreScalars-right : (xs ys : List ℕ) → AreScalars (xs ++ ys) → AreScalars ys
AreScalars-right [] ys h = h
AreScalars-right (x ∷ xs) ys h = AreScalars-right xs ys h.2

pub length-ucp_to_utf8_pos : (cp : ℕ) → IsScalar cp → 0 < length (ucp_to_utf8 cp)
length-ucp_to_utf8_pos cp h = rw (ucp_to_utf8_lem cp) (ground arith)

pub encode_all-append : (xs ys : List ℕ) → encode_all (xs ++ ys) ≡ encode_all xs ++ encode_all ys
encode_all-append [] ys = refl
encode_all-append (x ∷ xs) ys =
    ap (λ t. ucp_to_utf8 x ++ t) (encode_all-append xs ys)
    ∙ sym (append_assoc (ucp_to_utf8 x) (encode_all xs) (encode_all ys))

pub utf8_string_alloc_lem :
    (grants : ℕ → Bool) (n : ℕ)
    → ((utf8_string_alloc grants n
          ≡ some (record { bytes = []; length = 0; count = 0; capacity = n }))
        × (n + struct_size + 1 ≤ size_max))
      ⊎ ((utf8_string_alloc grants n ≡ none)
          × ((size_max < n + struct_size + 1) ⊎ (grants (struct_size + n + 1) ≡ false)))
unfolding utf8_string_alloc
utf8_string_alloc_lem grants n = elim (Bool-cases (ltb (size_max - struct_size - 1) n)) [
  | inl over ↦ inr (rw over, inl (omega tests))
  | inr small ↦ elim (Bool-cases (grants (struct_size + n + 1))) [
    | inr refused ↦ inr (rw (small, refused), inr refused)
    | inl granted ↦ inl (rw (small, granted), omega tests)
  ]
]

-- What the counting functions say of well-formed text.
module _ (cps : List ℕ) (h : AreScalars cps) where
  pub byte_count : utf8_valid_byte_count (some (encode_all cps)) ≡ length (encode_all cps)
  byte_count = utf8_valid_byte_count-length (encode_all cps) (encode_all-is_valid_utf8 cps h)

  pub codepoint_count : utf8_count_codepoints (some (encode_all cps)) ≡ length cps
  codepoint_count = utf8_count_codepoints-encode_all cps h

  -- `utf8_new` of well-formed text holds its scalar values, or it returns NULL because the block
  -- would not fit in `size_t` or the allocator refuses it.
  pub utf8_new_lem :
      (grants : ℕ → Bool)
      → ((s : Utf8String) × (utf8_new grants (some (encode_all cps)) ≡ some s) × Holds s cps)
        ⊎ ((utf8_new grants (some (encode_all cps)) ≡ none)
            × ((size_max < length (encode_all cps) + struct_size + 1)
                ⊎ (grants (struct_size + length (encode_all cps) + 1) ≡ false)))
  unfolding utf8_new
  utf8_new_lem grants = elim (utf8_string_alloc_lem grants (length (encode_all cps))) [
    | inr (e, why) ↦ inr (ground (arith, byte_count), why)
    | inl (e, small) ↦ inl (
      record {
        bytes = encode_all cps;
        length = length (encode_all cps);
        count = length cps;
        capacity = length (encode_all cps);
      },
      ground (arith, byte_count, codepoint_count, take-length (encode_all cps)),
      record {
        scalars = h;
        bytes_eq = refl;
        length_eq = refl;
        count_eq = refl;
        room = omega arith;
        small = small;
      },
    )
  ]
