-- ===== src/StrToNum/Unsigned.antt =====
-- The unsigned conversions of src/str_to_num.c.
use native.Mathlib.Nat.{mod-eq_of_lt}
use solidc.Base.{
  inl, inr, ℕ, ◌-◌, ◌^◌, ◌≤◌, ◌<◌, ◌≡◌, refl, true, some, List, ◌∷◌, ◌++◌, arith, ltb, leb,
  if◌then◌else◌, length, ne→==, Bool-cases, ltb→lt,
}
use solidc.StrToNum.{
  Conversion, success, overflow, underflow, is_space, str_to_unsigned, validate_and_parse_unsigned,
}
use solidc.StrToNum.Digits.{
  AreDigits, AreSpaces, decimal, get_or-length, first_after_space-digits, first_after_space-append,
  power_le, power_double, half_pos,
}

-- Text whose first character that is not white space is a minus sign is an underflow, whatever
-- stands behind it, also when that is no number, and whatever strtoumax does. White space is the
-- space and the characters from the tabulator to the carriage return.
pub str_to_unsigned-underflow :
    (strtoumax : List ℕ → ℕ → Conversion ℕ) (w base : ℕ) (spaces rest : List ℕ)
    → AreSpaces spaces
    → str_to_unsigned strtoumax w (some (spaces ++ 45 ∷ rest)) base true ≡ underflow
unfolding str_to_unsigned validate_and_parse_unsigned is_space
str_to_unsigned-underflow strtoumax w base spaces rest h =
    rw (first_after_space-append spaces 45 rest h refl) refl

-- Where strtoumax reads a text of decimal digits alone to its end and gives the number that it
-- spells, or UINTMAX_MAX with ERANGE when that does not fit in 64 bits, the conversion of such a text,
-- not empty, to an unsigned type of `w` bits, 1 to 64, gives the number when it fits in the type, and
-- an overflow otherwise.
pub str_to_unsigned_lem :
    (strtoumax : List ℕ → ℕ → Conversion ℕ)
    → ((ds : List ℕ)
        → AreDigits ds
        → 0 < length ds
        → strtoumax ds 10 ≡ (record {
          value = if ltb (decimal 0 ds) (2 ^ 64) then decimal 0 ds else 2 ^ 64 - 1;
          stop = length ds;
          erange = leb (2 ^ 64) (decimal 0 ds);
        }))
    → (w : ℕ) (ds : List ℕ) → 0 < w
    → w ≤ 64
    → AreDigits ds
    → 0 < length ds
    → str_to_unsigned strtoumax w (some ds) 10 true
      ≡ (if ltb (decimal 0 ds) (2 ^ w) then success (decimal 0 ds) else overflow)
unfolding str_to_unsigned validate_and_parse_unsigned
str_to_unsigned_lem strtoumax reads w ds pos narrow h k =
    rw
      (
        first_after_space-digits ds h,
        reads ds h k,
        ne→== (length ds) 0 (omega arith),
        get_or-length ds,
      )
      (elim (Bool-cases (ltb (decimal 0 ds) (2 ^ w))) [
        | inl fits ↦
            ground (arith, mod-eq_of_lt (ltb→lt (decimal 0 ds) (2 ^ w) fits), power_le w pos narrow)
        | inr big ↦
            ground (arith, power_le w pos narrow, half_pos w pos narrow, power_double w pos narrow)
      ])
