-- ===== src/StrToNum/Digits.antt =====
-- Decimal text, for src/str_to_num.c.
use solidc.Base.{
  ℕ, ◌+◌, ◌-◌, ◌*◌, ◌^◌, ◌≤◌, ◌<◌, ◌≡◌, refl, ap, ◌∙◌, ◌⊎◌, true, false, List, [], ◌∷◌, ◌++◌, arith,
  ◌==◌, get_or, length, ne→==, suc,
}
use native.Mathlib.Nat.{pow-le-pow_right, pow-succ', one-le-pow}
use solidc.StrToNum.{is_space, first_after_space}

abbrev pub AreDigits : List ℕ → Type 0
AreDigits [] = Unit
AreDigits (d ∷ ds) = (48 ≤ d) × (d ≤ 57) × AreDigits ds

-- the space, and the characters from the tabulator to the carriage return
abbrev pub AreSpaces : List ℕ → Type 0
AreSpaces [] = Unit
AreSpaces (c ∷ cs) = ((c ≡ 32) ⊎ ((9 ≤ c) × (c ≤ 13))) × AreSpaces cs

space-is_space : (c : ℕ) → (c ≡ 32) ⊎ ((9 ≤ c) × (c ≤ 13)) → is_space c ≡ true
unfolding is_space
space-is_space c h = ground arith

-- the number that the digits spell, behind those that spell `n`
abbrev pub decimal : ℕ → List ℕ → ℕ
decimal n [] = n
decimal n (d ∷ ds) = decimal (n * 10 + (d - 48)) ds

pub get_or-length : (xs : List ℕ) → get_or xs (length xs) 0 ≡ 0
get_or-length [] = refl
get_or-length (x ∷ xs) = get_or-length xs

digit-is_space : (d : ℕ) → 48 ≤ d → is_space d ≡ false
unfolding is_space
digit-is_space d h =
    rw
      (
        ne→== d 32 (omega arith),
        ne→== d 9 (omega arith),
        ne→== d 10 (omega arith),
        ne→== d 13 (omega arith),
        ne→== d 11 (omega arith),
        ne→== d 12 (omega arith),
      )
      refl

pub first_after_space-digits : (ds : List ℕ) → AreDigits ds → (first_after_space ds == 45) ≡ false
unfolding first_after_space is_space
first_after_space-digits [] h = refl
first_after_space-digits (d ∷ ds) h = rw (digit-is_space d h.0) (ne→== d 45 (omega arith))

pub first_after_space-append :
    (spaces : List ℕ) (c : ℕ) (rest : List ℕ)
    → AreSpaces spaces
    → is_space c ≡ false
    → first_after_space (spaces ++ c ∷ rest) ≡ c
unfolding first_after_space
first_after_space-append [] c rest h k = rw k refl
first_after_space-append (s ∷ spaces) c rest h k =
    rw (space-is_space s h.0) (first_after_space-append spaces c rest h.1 k)

two_powers : (v : ℕ) → 2 ^ suc v ≡ 2 ^ v + 2 ^ v
two_powers v = pow-succ' 2 v ∙ omega arith

-- a type of at most 64 bits
module _ (w : ℕ) (pos : 0 < w) (narrow : w ≤ 64) where
  pub power_le : 2 ^ w ≤ 2 ^ 64
  power_le = pow-le-pow_right (omega arith) narrow

  pub half_le : 2 ^ (w - 1) ≤ 2 ^ 63
  half_le = pow-le-pow_right {n = 2} (omega arith) {j = 63} (omega arith)

  pub power_double : 2 ^ w ≡ 2 ^ (w - 1) + 2 ^ (w - 1)
  power_double = ap (λ n. 2 ^ n) whole ∙ two_powers (w - 1)
    where
      whole : w ≡ suc (w - 1)
      whole = omega arith

  pub half_pos : 0 < 2 ^ (w - 1)
  half_pos = one-le-pow (w - 1) 2 (omega arith)
