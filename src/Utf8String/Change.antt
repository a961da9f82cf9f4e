-- ===== src/Utf8String/Change.antt =====
-- `utf8_append` of src/unicode.c.
use native.Mathlib.Nat.{mod-eq_of_lt}
use mathlib.Core.Path.{subst}
use solidc.Base.{
  ℕ, ◌+◌, ◌<◌, ◌∙◌, max, leb→gt, ltb→lt, ◌-◌, ◌*◌, ◌%◌, ◌^◌, ◌≤◌, ◌≡◌, refl, sym, ap, ◌⊎◌, inl, inr,
  Bool, true, false, some, List, [], ◌∷◌, ◌++◌, arith, ltb, leb, if◌then◌else◌, size_max, length,
  take, drop, Bool-cases, tests, length-append,
}
use solidc.Unicode.Valid.{AreScalars, encode_all}
use solidc.Utf8String.{Utf8String, struct_size, utf8_string_grow, utf8_append}
use solidc.Utf8String.Holds.{
  Holds, take-length, AreScalars-append, encode_all-append, byte_count, codepoint_count,
}

pub take-append : (xs ys : List ℕ) → take (length xs) (xs ++ ys) ≡ xs
take-append [] ys = refl
take-append (x ∷ xs) ys = ap (λ t. x ∷ t) (take-append xs ys)

pub drop-append : (xs ys : List ℕ) → drop (length xs) (xs ++ ys) ≡ ys
drop-append [] ys = refl
drop-append (x ∷ xs) ys = drop-append xs ys

-- the capacity that growth asks for
abbrev pub wanted : Utf8String → ℕ → ℕ
wanted s n = max n (s.capacity * 2 % 2 ^ 64)

-- The string must grow for `n` bytes, and the larger block does not fit in `size_t` or is refused.
abbrev pub IsRefused : (ℕ → Bool) → Utf8String → ℕ → Type 0
IsRefused grants s n =
    (s.capacity < n)
    × ((size_max < wanted s n + struct_size + 1) ⊎ (grants (struct_size + wanted s n + 1) ≡ false))

-- Growth changes the capacity alone, to at least what is wanted, or it changes nothing, with its cause.
pub utf8_string_grow_lem :
    (grants : ℕ → Bool) (s : Utf8String) (n : ℕ)
    → s.capacity + struct_size + 1 ≤ size_max
    → ((k : ℕ) × (utf8_string_grow grants s n ≡ (true, record s { capacity = k }))
        × (n ≤ k)
        × (k + struct_size + 1 ≤ size_max))
      ⊎ ((utf8_string_grow grants s n ≡ (false, s)) × IsRefused grants s n)
unfolding utf8_string_grow
utf8_string_grow_lem grants s n h = elim (Bool-cases (leb n s.capacity)) [
  | inl enough ↦ inl (s.capacity, rw enough, omega tests, h)
  | inr short ↦ elim (Bool-cases (ltb (size_max - struct_size - 1) room)) [
    | inl over ↦ inr (
      rw (short, over),
      (
        leb→gt n s.capacity short,
        inl (omega (arith, ltb→lt (size_max - struct_size - 1) room over, room_max)),
      ),
    )
    | inr small ↦ elim (Bool-cases (grants (struct_size + room + 1))) [
      | inr refused ↦ inr (
        rw (short, small, refused),
        (
          leb→gt n s.capacity short,
          inr (ap (λ r. grants (struct_size + r + 1)) (sym room_max) ∙ refused),
        ),
      )
      | inl granted ↦ inl (room, rw (short, small, granted), ground arith, omega tests)
    ]
  ]
]
  where
    room : ℕ
    room = if ltb (s.capacity * 2 % 2 ^ 64) n then n else s.capacity * 2 % 2 ^ 64

    room_max : room ≡ wanted s n
    room_max = ground arith

module _ (grants : ℕ → Bool) (s : Utf8String) where
  -- `utf8_append` of well-formed text to a string that holds `xs` gives a string that holds the
  -- text's scalar values behind them, or returns false and changes nothing, and then the two texts
  -- do not fit in the capacity, and the larger block does not fit in `size_t` or the allocator
  -- refuses it. The two texts together are shorter than `size_t` can count.
  pub utf8_append_lem :
      (xs ys : List ℕ)
      → Holds s xs
      → AreScalars ys
      → s.length + length (encode_all ys) ≤ size_max
      → ((s' : Utf8String) × (utf8_append grants (some s) (some (encode_all ys)) ≡ (true, some s'))
          × Holds s' (xs ++ ys))
        ⊎ ((utf8_append grants (some s) (some (encode_all ys)) ≡ (false, some s))
            × IsRefused grants s (s.length + length (encode_all ys)))
  unfolding utf8_append
  utf8_append_lem xs ys v h fits =
      elim (utf8_string_grow_lem grants s ((s.length + n) % 2 ^ 64) v.small) [
        | inr (e, why) ↦
            inr (ground (arith, byte_count ys h), subst (IsRefused grants s) unwrapped why)
        | inl (k, e, more, small) ↦ inl (
          record {
            bytes = encode_all xs ++ encode_all ys;
            length = s.length + n;
            count = s.count + length ys;
            capacity = k;
          },
          ground (arith, byte_count ys h, codepoint_count ys h, take-length (encode_all ys), whole),
          record {
            scalars = AreScalars-append xs ys v.scalars h;
            bytes_eq = sym (encode_all-append xs ys);
            length_eq =
                rw (encode_all-append xs ys)
                  (omega (arith, v.length_eq, length-append (encode_all xs) (encode_all ys)));
            count_eq = omega (arith, v.count_eq, length-append xs ys);
            room = omega arith;
            small = small;
          },
        )
      ]
    where
      n : ℕ
      n = length (encode_all ys)

      unwrapped : (s.length + n) % 2 ^ 64 ≡ s.length + n
      unwrapped = mod-eq_of_lt (omega (arith, fits))

      whole : take s.length s.bytes ≡ encode_all xs
      whole = rw (v.bytes_eq, v.length_eq) (take-length (encode_all xs))
