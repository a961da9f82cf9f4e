-- ===== src/Utf8String/Range.antt =====
-- `utf8_substr` of src/unicode.c, whose range ends at the sum of two `size_t`.
use solidc.Base.{
  ℕ, ◌+◌, ◌-◌, ◌%◌, ◌^◌, ◌≤◌, ◌<◌, ◌≡◌, Bool, true, some, arith, size_max, take, drop, min,
}
use solidc.Utf8String.{Utf8String, overrun, copy, utf8_substr}

module _ (grants : ℕ → Bool) (s : Utf8String) (index len : ℕ) (inside : index < s.length) where
  -- When the range starts inside a string shorter than `size_t` can count, is not empty and its end
  -- does not wrap, and the allocator meets every request, `utf8_substr` copies the bytes of the range
  -- that exist.
  pub utf8_substr_lem :
      s.length < size_max
      → 0 < len
      → index + len < 2 ^ 64
      → ((n : ℕ) → grants n ≡ true)
      → utf8_substr grants (some s) index len
        ≡ copy (take (min len (s.length - index)) (drop index s.bytes))
  unfolding utf8_substr
  utf8_substr_lem small pos whole g =
      ground (arith, g ((min len (s.length - index) + 1) % 2 ^ 64), g ((len + 1) % 2 ^ 64))

  -- When the range starts inside the string, its end wraps around `size_t`, and the allocator meets every
  -- request, `utf8_substr` reads past the end of the string.
  pub utf8_substr-overruns :
      len < 2 ^ 64
      → 2 ^ 64 ≤ index + len
      → s.length < 2 ^ 64
      → ((n : ℕ) → grants n ≡ true)
      → utf8_substr grants (some s) index len ≡ overrun
  unfolding utf8_substr
  utf8_substr-overruns word wraps small g = ground (arith, g ((len + 1) % 2 ^ 64))
