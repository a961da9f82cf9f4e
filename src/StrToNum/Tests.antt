-- ===== src/StrToNum/Tests.antt =====
-- The conversions of src/str_to_num.c at concrete texts.
use solidc.Base.{
  ne→==, ◌⊎◌, inl, inr, ℕ, ◌-◌, ◌^◌, ◌<◌, ◌≡◌, refl, Bool, true, false, some, List, [], ◌∷◌, map,
  arith, leb, ltb, ◌==◌, if◌then◌else◌, length,
}
use solidc.StrToNum.{
  ℤ, negsuc, Conversion, success, underflow, invalid, str_to_signed, str_to_unsigned, str_to_bool,
  bool_mappings,
}
use solidc.StrToNum.Digits.{AreDigits, decimal}
use solidc.StrToNum.Unsigned.{str_to_unsigned-underflow, str_to_unsigned_lem}
use solidc.StrToNum.Truth.{lower, same_text, Listed, Unlisted, str_to_bool_lem}
use solidc.StrToNum.Signed.{signed_text, spelled, limit, extreme, str_to_signed_lem}

-- strtoumax and strtoimax on texts of digits
abbrev strtoumax_digits : List ℕ → ℕ → Conversion ℕ
strtoumax_digits ds base = record {
  value = if ltb (decimal 0 ds) (2 ^ 64) then decimal 0 ds else 2 ^ 64 - 1;
  stop = length ds;
  erange = leb (2 ^ 64) (decimal 0 ds);
}

abbrev read_digits : Bool → List ℕ → Conversion ℤ
read_digits negative ds = record {
  value = if leb (decimal 0 ds) (limit 64 negative) then spelled negative ds else extreme negative;
  stop = length (signed_text negative ds);
  erange = ltb (limit 64 negative) (decimal 0 ds);
}

abbrev strtoimax_digits : List ℕ → ℕ → Conversion ℤ
strtoimax_digits [] base = read_digits false []
strtoimax_digits (c ∷ ds) base = if c == 45 then read_digits true ds else read_digits false (c ∷ ds)

strtoimax_digits-read_digits :
    (negative : Bool) (ds : List ℕ)
    → AreDigits ds
    → 0 < length ds
    → strtoimax_digits (signed_text negative ds) 10 ≡ read_digits negative ds
strtoimax_digits-read_digits true ds h k = refl
strtoimax_digits-read_digits false [] h k = refl
strtoimax_digits-read_digits false (d ∷ ds) h k = rw (ne→== d 45 (omega arith)) refl

abbrev compare_lower : List ℕ → List ℕ → Bool
compare_lower s t = same_text (map lower s) (map lower t)

-- "128"
abbrev text : List ℕ
text = 49 ∷ 50 ∷ 56 ∷ []

str_to_unsigned-underflow_example :
    str_to_unsigned strtoumax_digits 8 (some (32 ∷ 9 ∷ 10 ∷ 45 ∷ 97 ∷ [])) 10 true ≡ underflow
str_to_unsigned-underflow_example =
    str_to_unsigned-underflow strtoumax_digits 8 10 (32 ∷ 9 ∷ 10 ∷ []) (97 ∷ [])
      (inl refl, (inr (omega arith), (inr (omega arith), tt)))

str_to_unsigned_lem_example : str_to_unsigned strtoumax_digits 8 (some text) 10 true ≡ success 128
str_to_unsigned_lem_example =
    str_to_unsigned_lem strtoumax_digits (λ ds h k. refl) 8 text (omega arith) (omega arith)
      (omega arith) (omega arith)

-- "128" does not fit in int8_t, "-128" does.
str_to_signed_lem_example :
    str_to_signed strtoimax_digits 8 (some (45 ∷ text)) 10 true ≡ success (negsuc 127)
str_to_signed_lem_example =
    str_to_signed_lem strtoimax_digits strtoimax_digits-read_digits 8 true text (omega arith)
      (omega arith) (omega arith) (omega arith)

-- "Yes"
str_to_bool_lem_example :
    ((value : Bool) × (str_to_bool compare_lower (some (89 ∷ 101 ∷ 115 ∷ [])) true ≡ success value)
      × Listed (121 ∷ 101 ∷ 115 ∷ []) value bool_mappings)
    ⊎ ((str_to_bool compare_lower (some (89 ∷ 101 ∷ 115 ∷ [])) true ≡ invalid)
        × Unlisted (121 ∷ 101 ∷ 115 ∷ []) bool_mappings)
str_to_bool_lem_example = str_to_bool_lem compare_lower (λ s t. refl) (89 ∷ 101 ∷ 115 ∷ [])
