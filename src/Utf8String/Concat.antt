-- ===== src/Utf8String/Concat.antt =====
-- `utf8_concat` of src/unicode.c.
use native.Mathlib.Nat.{mod-eq_of_lt}
use solidc.Base.{
  ℕ, ◌+◌, ◌%◌, ◌^◌, ◌≤◌, ◌<◌, ◌≡◌, refl, sym, ap, ◌⊎◌, inl, inr, Bool, false, none, some, List,
  ◌++◌, arith, size_max, take, length-append,
}
use solidc.Unicode.Valid.{encode_all}
use solidc.Utf8String.{Utf8String, struct_size, utf8_concat}
use solidc.Utf8String.Holds.{
  Holds, take-length, AreScalars-append, encode_all-append, utf8_string_alloc_lem,
}

whole : (s : Utf8String) (xs : List ℕ) → Holds s xs → take s.length s.bytes ≡ encode_all xs
whole s xs v = rw (v.bytes_eq, v.length_eq) (take-length (encode_all xs))

-- `utf8_concat` of two strings that hold `xs` and `ys`, together shorter than `size_t` can count,
-- gives a string that holds the scalar values of both, or NULL, and then the block does not fit in
-- `size_t` or the allocator refuses it.
pub utf8_concat_lem :
    (grants : ℕ → Bool) (s1 s2 : Utf8String) (xs ys : List ℕ)
    → Holds s1 xs
    → Holds s2 ys
    → s1.length + s2.length ≤ size_max
    → ((s : Utf8String) × (utf8_concat grants (some s1) (some s2) ≡ some s) × Holds s (xs ++ ys))
      ⊎ ((utf8_concat grants (some s1) (some s2) ≡ none)
          × ((size_max < s1.length + s2.length + struct_size + 1)
              ⊎ (grants (struct_size + (s1.length + s2.length) + 1) ≡ false)))
unfolding utf8_concat
utf8_concat_lem grants s1 s2 xs ys v1 v2 fits =
    elim (utf8_string_alloc_lem grants (s1.length + s2.length)) [
      | inr (e, why) ↦ inr (rw (utf8_concat, wrapped, e) refl, why)
      | inl (e, small) ↦ inl (
        both (s1.length + s2.length),
        rw (utf8_concat, wrapped, e, whole s1 xs v1, whole s2 ys v2)
            (ap (λ n. some (both n)) wrapped),
        record {
          scalars = AreScalars-append xs ys v1.scalars v2.scalars;
          bytes_eq = sym (encode_all-append xs ys);
          length_eq = rw (encode_all-append xs ys) (
              omega
                (arith, v1.length_eq, v2.length_eq, length-append (encode_all xs) (encode_all ys)));
          count_eq = omega (arith, v1.count_eq, v2.count_eq, length-append xs ys);
          room = omega arith;
          small = small;
        },
      )
    ]
  where
    both : ℕ → Utf8String
    both n = record {
      bytes = encode_all xs ++ encode_all ys;
      length = n;
      count = s1.count + s2.count;
      capacity = s1.length + s2.length;
    }

    wrapped : (s1.length + s2.length) % 2 ^ 64 ≡ s1.length + s2.length
    wrapped = mod-eq_of_lt (omega arith)
