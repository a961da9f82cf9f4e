-- ===== src/Utf8String/Insert.antt =====
-- `utf8_insert` of src/unicode.c.
use native.Mathlib.Nat.{mod-eq_of_lt}
use mathlib.Core.Path.{subst}
use solidc.Base.{
  ℕ, ◌+◌, ◌%◌, ◌^◌, ◌≤◌, ◌≡◌, sym, ap, ◌∙◌, ◌⊎◌, inl, inr, Bool, true, false, some, List, [], ◌∷◌,
  ◌++◌, arith, ltb, ◌==◌, size_max, length, take, drop, length-append, ge→ltb, ne→==,
}
use solidc.Unicode.{ucp_to_utf8}
use solidc.Unicode.Valid.{AreScalars, encode_all}
use solidc.Utf8String.{Utf8String, struct_size, utf8_insert}
use solidc.Utf8String.Change.{take-append, drop-append, IsRefused, utf8_string_grow_lem}
use solidc.Utf8String.Holds.{
  AreScalars-left, AreScalars-right, length-ucp_to_utf8_pos, Holds, take-length, AreScalars-append,
  encode_all-append, byte_count, codepoint_count,
}

-- The pieces of a string, and the same with more between them.
module _ (s : Utf8String) (xs zs : List ℕ) (v : Holds s (xs ++ zs)) where
  pub whole : s.bytes ≡ encode_all xs ++ encode_all zs
  whole = v.bytes_eq ∙ encode_all-append xs zs

  pub length_parts : s.length ≡ length (encode_all xs) + length (encode_all zs)
  length_parts =
      v.length_eq
      ∙ ap length (encode_all-append xs zs)
      ∙ length-append (encode_all xs) (encode_all zs)

  pub before : take (length (encode_all xs)) s.bytes ≡ encode_all xs
  before = rw whole (take-append (encode_all xs) (encode_all zs))

  pub behind : drop (length (encode_all xs)) s.bytes ≡ encode_all zs
  behind = rw whole (drop-append (encode_all xs) (encode_all zs))

  pub insert_between :
      (ys : List ℕ) (k : ℕ)
      → AreScalars ys
      → s.length + length (encode_all ys) ≤ k
      → k + struct_size + 1 ≤ size_max
      → Holds
          (record {
            bytes = encode_all xs ++ (encode_all ys ++ encode_all zs);
            length = s.length + length (encode_all ys);
            count = s.count + length ys;
            capacity = k;
          })
          (xs ++ (ys ++ zs))
  insert_between ys k h more small = record {
    scalars =
        AreScalars-append xs (ys ++ zs) (AreScalars-left xs zs v.scalars)
          (AreScalars-append ys zs h (AreScalars-right xs zs v.scalars));
    bytes_eq = sym spelled;
    length_eq = rw spelled (
        omega (
          arith,
          length_parts,
          length-append (encode_all xs) (encode_all ys ++ encode_all zs),
          length-append (encode_all ys) (encode_all zs),
        ));
    count_eq =
        omega (
          arith,
          v.count_eq,
          length-append xs zs,
          length-append xs (ys ++ zs),
          length-append ys zs,
        );
    room = more;
    small = small;
  }
    where
      spelled : encode_all (xs ++ (ys ++ zs)) ≡ encode_all xs ++ (encode_all ys ++ encode_all zs)
      spelled =
          encode_all-append xs (ys ++ zs) ∙ ap (λ t. encode_all xs ++ t) (encode_all-append ys zs)

module _ (grants : ℕ → Bool) (s : Utf8String) where
  -- `utf8_insert` of well-formed text at the end of the encoding of `xs`, in a string that holds
  -- `xs` and `zs`, puts the text's scalar values between them, or returns false and changes nothing, and
  -- then the text does not fit in the capacity, and the larger block does not fit in `size_t` or the
  -- allocator refuses it. The two texts together are shorter than `size_t` can count.
  pub utf8_insert_lem :
      (xs ys zs : List ℕ) (index : ℕ)
      → Holds s (xs ++ zs)
      → AreScalars ys
      → index ≡ length (encode_all xs)
      → s.length + length (encode_all ys) ≤ size_max
      → ((s' : Utf8String) × (utf8_insert grants (some s) index (some (encode_all ys))
            ≡ (true, some s'))
          × Holds s' (xs ++ (ys ++ zs)))
        ⊎ ((utf8_insert grants (some s) index (some (encode_all ys)) ≡ (false, some s))
            × IsRefused grants s (s.length + length (encode_all ys)))
  unfolding utf8_insert
  utf8_insert_lem xs [] zs index v h e fits = inl (s, ground (arith, byte_count [] tt, within), v)
    where
      within : ltb s.length index ≡ false
      within = ge→ltb s.length index (omega (arith, length_parts s xs zs v))
  utf8_insert_lem xs (y ∷ ys) zs index v h e fits =
      elim (utf8_string_grow_lem grants s ((s.length + n) % 2 ^ 64) v.small) [
        | inr (g, why) ↦ inr (
          ground (arith, byte_count (y ∷ ys) h, within, nonzero),
          subst (IsRefused grants s) unwrapped why,
        )
        | inl (k, g, more, small) ↦ inl (
          _,
          ground (
            arith,
            byte_count (y ∷ ys) h,
            codepoint_count (y ∷ ys) h,
            take-length (encode_all (y ∷ ys)),
            within,
            nonzero,
            ap (λ i. take i s.bytes) e,
            ap (λ i. drop i s.bytes) e,
            before s xs zs v,
            behind s xs zs v,
          ),
          insert_between s xs zs v (y ∷ ys) k h (omega arith) small,
        )
      ]
    where
      n : ℕ
      n = length (encode_all (y ∷ ys))

      within : ltb s.length index ≡ false
      within = ge→ltb s.length index (omega (arith, length_parts s xs zs v))

      unwrapped : (s.length + n) % 2 ^ 64 ≡ s.length + n
      unwrapped = mod-eq_of_lt (omega (arith, fits))

      nonzero : (length (encode_all (y ∷ ys)) == 0) ≡ false
      nonzero = ne→== n 0 (
          omega
            (arith, length-append (ucp_to_utf8 y) (encode_all ys), length-ucp_to_utf8_pos y h.0))
