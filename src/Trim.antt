-- ===== src/Trim.antt =====
-- The character classes of src/unicode.c and the trimming of C strings in place. The tests of
-- <wctype.h> are a parameter, `is`: iswspace for white space, iswdigit for digits, and so on.
pub mod Front
pub mod Shape
pub mod Back
mod Tests
use solidc.Base.{
  ℕ, zero, suc, ◌+◌, ◌-◌, Bool, true, false, Option, none, some, List, [], ◌∷◌, ltb, ◌==◌, ◌&&◌,
  if◌then◌else◌, get_or, length, take, drop,
}
use solidc.Unicode.{utf8_to_codepoint, utf8_char_length, continues}

module _ (is : ℕ → Bool) where
  -- is_codepoint_whitespace and is_utf8_whitespace, is_codepoint_digit and is_utf8_digit, and so on
  pub is_codepoint : ℕ → Bool
  is_codepoint codepoint = is codepoint

  pub is_utf8 : Option (List ℕ) → Bool
  is_utf8 none = false
  is_utf8 (some utf8) = is_codepoint (utf8_to_codepoint (some utf8))

  -- The loop of `utf8_ltrim` over the bytes from `i` on, of which `skip` are still to be passed over;
  -- the result is what is left, `none` if the loop runs past the terminator.
  pub ltrim_from : ℕ → List ℕ → Option (List ℕ)
  ltrim_from zero [] = some []
  ltrim_from (suc skip) [] = none
  ltrim_from (suc skip) (byte ∷ s) = ltrim_from skip s
  ltrim_from zero (byte ∷ s) =
      let char_len = utf8_char_length (some (byte ∷ s)) in
      let rest = ltrim_from (char_len - 1) s in
      if is_utf8 (some (byte ∷ s))
      then (if char_len == 0 then some (byte ∷ s) else rest)
      else some (byte ∷ s)

  -- A null pointer is let be: `some none`.
  pub utf8_ltrim : Option (List ℕ) → Option (Option (List ℕ))
  utf8_ltrim none = some none
  utf8_ltrim (some str) = elim (ltrim_from 0 str) [ none ↦ none | some s ↦ some (some s) ]

-- The way back to the start of the character that ends with the byte at the index.
pub char_start : ℕ → List ℕ → ℕ
char_start zero str = 0
char_start (suc i) str = if continues (get_or str (suc i) 0) then char_start i str else suc i

module _ (is : ℕ → Bool) where
  -- The loop of `utf8_rtrim` on fuel, from `i` down; `none` when that runs out.
  pub rtrim_to : ℕ → ℕ → List ℕ → Option ℕ
  rtrim_to zero i str = none
  rtrim_to (suc fuel) i str =
      let start = char_start (i - 1) str in
      let char_len = utf8_char_length (some (drop start str)) in
      let rest = rtrim_to fuel start str in
      if ltb 0 i
      then (if ltb 0 char_len && start + char_len == i && is_utf8 is (some (drop start str))
          then rest
          else some i)
      else some i

  pub utf8_rtrim : Option (List ℕ) → Option (Option (List ℕ))
  utf8_rtrim none = some none
  utf8_rtrim (some str) = elim (rtrim_to (suc (length str)) (length str) str) [
    | none ↦ none
    | some i ↦ some (some (take i str))
  ]

  pub utf8_trim : Option (List ℕ) → Option (Option (List ℕ))
  utf8_trim none = some none
  utf8_trim (some str) = elim (utf8_ltrim is (some str)) [ none ↦ none | some s ↦ utf8_rtrim s ]
