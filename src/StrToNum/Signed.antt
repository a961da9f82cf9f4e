-- ===== src/StrToNum/Signed.antt =====
-- The signed conversions of src/str_to_num.c.
use native.Mathlib.Nat.{mod-eq_of_lt}
use solidc.Base.{
  ℕ, zero, suc, ◌-◌, ◌^◌, ◌≤◌, ◌<◌, ◌≡◌, ◌≢◌, refl, ap, inl, inr, Bool, true, false, some, List,
  ◌∷◌, arith, ltb, leb, if◌then◌else◌, length, ne→==, Bool-cases, ltb→lt, leb→le, leb→gt, lt→ltb,
  ge→ltb,
}
use solidc.StrToNum.{
  ℤ, pos, negsuc, Conversion, success, overflow, out_of_range, low_bits, cast_signed, str_to_signed,
  validate_and_parse_signed,
}
use solidc.StrToNum.Digits.{AreDigits, decimal, get_or-length, power_double, half_le, half_pos}

abbrev pub negated : ℕ → ℤ
negated zero = pos 0
negated (suc n) = negsuc n

-- digits with or without a minus sign, and the number that they spell
abbrev pub signed_text : Bool → List ℕ → List ℕ
signed_text true ds = 45 ∷ ds
signed_text false ds = ds

abbrev pub spelled : Bool → List ℕ → ℤ
spelled true ds = negated (decimal 0 ds)
spelled false ds = pos (decimal 0 ds)

-- the magnitude of the least or of the greatest number of `w` bits
abbrev pub limit : ℕ → Bool → ℕ
limit w true = 2 ^ (w - 1)
limit w false = 2 ^ (w - 1) - 1

-- what strtoimax gives when the number does not fit
abbrev pub extreme : Bool → ℤ
extreme true = negsuc (2 ^ 63 - 1)
extreme false = pos (2 ^ 63 - 1)

module _ (w : ℕ) (wide : 0 < w) (narrow : w ≤ 64) where
  cast_signed-pos : (n : ℕ) → n < 2 ^ (w - 1) → cast_signed w (pos n) ≡ pos n
  unfolding cast_signed low_bits
  cast_signed-pos n h =
      rw
        (
          mod-eq_of_lt {n = n} {m = 2 ^ w} (omega (arith, power_double w wide narrow)),
          lt→ltb n (2 ^ (w - 1)) h,
        )
        refl

  cast_signed-negsuc : (n : ℕ) → n < 2 ^ (w - 1) → cast_signed w (negsuc n) ≡ negsuc n
  unfolding cast_signed low_bits
  cast_signed-negsuc n h =
      rw
        (
          mod-eq_of_lt {n = n} {m = 2 ^ w} (omega (arith, power_double w wide narrow)),
          ge→ltb (2 ^ w - 1 - n) (2 ^ (w - 1)) (omega (arith, power_double w wide narrow)),
        )
        (ap negsuc (omega (arith, power_double w wide narrow)))

  -- The range check and the cast of a number that strtoimax can give.
  abbrev converted : (negative : Bool) (n : ℕ) → ℤ
  converted true n = negated n
  converted false n = pos n

  narrowed :
      (negative : Bool) (n : ℕ)
      → (if out_of_range w (converted negative n)
          then overflow
          else success (cast_signed w (converted negative n)))
        ≡ (if leb n (limit w negative) then success (converted negative n) else overflow)
  unfolding out_of_range
  narrowed true zero = ground (arith, cast_signed-pos 0 half, half)
    where
      half : 0 < 2 ^ (w - 1)
      half = half_pos w wide narrow
  narrowed true (suc n) = elim (Bool-cases (ltb n (2 ^ (w - 1)))) [
    | inl small ↦ ground (arith, cast_signed-negsuc n (ltb→lt n (2 ^ (w - 1)) small))
    | inr large ↦ ground (arith, half_pos w wide narrow)
  ]
  narrowed false n = elim (Bool-cases (ltb n (2 ^ (w - 1)))) [
    | inl small ↦ ground (arith, cast_signed-pos n (ltb→lt n (2 ^ (w - 1)) small))
    | inr large ↦ ground (arith, half_pos w wide narrow)
  ]

  limit_le : (negative : Bool) → limit w negative ≤ limit 64 negative
  limit_le true = half_le w wide narrow
  limit_le false = omega (arith, half_le w wide narrow)

-- Where strtoimax reads a text of decimal digits alone, not empty and with or without a minus sign, to
-- its end and gives the number that it spells, or the nearest one that fits in 64 bits with ERANGE,
-- the conversion of such a text to a signed type of `w` bits, 1 to 64, gives the number when it fits in
-- the type, and an overflow otherwise.
pub str_to_signed_lem :
    (strtoimax : List ℕ → ℕ → Conversion ℤ)
    → ((negative : Bool) (ds : List ℕ)
        → AreDigits ds
        → 0 < length ds
        → strtoimax (signed_text negative ds) 10 ≡ (record {
          value =
              if leb (decimal 0 ds) (limit 64 negative)
              then spelled negative ds
              else extreme negative;
          stop = length (signed_text negative ds);
          erange = ltb (limit 64 negative) (decimal 0 ds);
        }))
    → (w : ℕ) (negative : Bool) (ds : List ℕ) → 0 < w
    → w ≤ 64
    → AreDigits ds
    → 0 < length ds
    → str_to_signed strtoimax w (some (signed_text negative ds)) 10 true
      ≡ (if leb (decimal 0 ds) (limit w negative) then success (spelled negative ds) else overflow)
unfolding str_to_signed validate_and_parse_signed
str_to_signed_lem strtoimax reads w negative ds wide narrow h k =
    rw
      (
        reads negative ds h k,
        ne→== (length (signed_text negative ds)) 0 (text_pos negative),
        get_or-length (signed_text negative ds),
      )
      (elim (Bool-cases (leb (decimal 0 ds) (limit 64 negative))) [
        | inl fits ↦
            rw
              (
                fits,
                ge→ltb (limit 64 negative) (decimal 0 ds)
                    (leb→le (decimal 0 ds) (limit 64 negative) fits),
                same negative,
              )
              (narrowed w wide narrow negative (decimal 0 ds))
        | inr large ↦
            rw
              (lt→ltb (limit 64 negative) (decimal 0 ds)
                (leb→gt (decimal 0 ds) (limit 64 negative) large))
              (ground (
                arith,
                limit_le w wide narrow negative,
                leb→gt (decimal 0 ds) (limit 64 negative) large,
              ))
      ])
  where
    text_pos : (negative : Bool) → length (signed_text negative ds) ≢ 0
    text_pos true = omega arith
    text_pos false = omega arith

    same : (negative : Bool) → spelled negative ds ≡ converted w wide narrow negative (decimal 0 ds)
    same true = refl
    same false = refl
