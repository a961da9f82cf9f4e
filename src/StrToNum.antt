-- ===== src/StrToNum.antt =====
-- src/str_to_num.c: integers from text. strtoimax and strtoumax are parameters, which answer with
-- the value, the offset of `endptr` and whether `errno` is ERANGE. The macros that make a function
-- for each integer type are functions of the type's width in bits, `w`, up to 64.
pub mod Digits
pub mod Unsigned
pub mod Signed
pub mod Truth
mod Tests
use solidc.Base.{
  ℕ, zero, suc, ◌+◌, ◌-◌, ◌*◌, ◌%◌, ◌^◌, Bool, true, false, not, ◌||◌, Option, none, some, List, [],
  ◌∷◌, map, ltb, ◌==◌, if◌then◌else◌, get_or,
}

pub data ℤ : Type 0 where
  pos negsuc : ℕ → ℤ

-- `StoError`, where STO_SUCCESS comes with what is written to `*result`
pub data StoError {ℓ} (A : Type ℓ) : Type ℓ where
  success : A → StoError A
  overflow underflow invalid : StoError A

-- what strtoimax or strtoumax gives
pub record Conversion {ℓ} (A : Type ℓ) : Type ℓ where
  pub value : A
  pub stop : ℕ
  pub erange : Bool

-- the checks after the call: `endptr == str || *endptr != '\0'` and `errno == ERANGE`
abbrev pub checked {ℓ} : {A : Type ℓ} → List ℕ → Conversion A → StoError A
checked text c =
    if c.erange
    then overflow
    else if c.stop == 0 || not (get_or text c.stop 0 == 0)
    then invalid
    else success c.value

pub is_space : ℕ → Bool
is_space c = c == 32 || c == 9 || c == 10 || c == 13 || c == 11 || c == 12

-- `*p` after the loop over white space
pub first_after_space : List ℕ → ℕ
first_after_space [] = 0
first_after_space (c ∷ text) = if is_space c then first_after_space text else c

-- `temp > type_max || temp < type_min`
pub out_of_range : ℕ → ℤ → Bool
out_of_range w (pos n) = ltb (2 ^ (w - 1) - 1) n
out_of_range w (negsuc n) = ltb (2 ^ (w - 1) - 1) n

-- the cast to a signed type of `w` bits, by the bits that are kept
pub low_bits : ℕ → ℤ → ℕ
low_bits w (pos n) = n % 2 ^ w
low_bits w (negsuc n) = 2 ^ w - 1 - n % 2 ^ w

pub cast_signed : ℕ → ℤ → ℤ
cast_signed w z =
    let u = low_bits w z in if ltb u (2 ^ (w - 1)) then pos u else negsuc (2 ^ w - 1 - u)

module _ (strtoimax : List ℕ → ℕ → Conversion ℤ) where
  pub validate_and_parse_signed : Option (List ℕ) → ℕ → StoError ℤ
  validate_and_parse_signed none base = invalid
  validate_and_parse_signed (some text) base = checked text (strtoimax text base)

  -- `writable` tells that `result` is not NULL.
  pub str_to_signed : ℕ → Option (List ℕ) → ℕ → Bool → StoError ℤ
  str_to_signed w str base writable =
      if not writable then invalid else elim (validate_and_parse_signed str base) [
        | success temp ↦ if out_of_range w temp then overflow else success (cast_signed w temp)
        | overflow ↦ overflow
        | underflow ↦ underflow
        | invalid ↦ invalid
      ]

module _ (strtoumax : List ℕ → ℕ → Conversion ℕ) where
  pub validate_and_parse_unsigned : Option (List ℕ) → ℕ → StoError ℕ
  validate_and_parse_unsigned none base = invalid
  validate_and_parse_unsigned (some text) base =
      if first_after_space text == 45 then underflow else checked text (strtoumax text base)

  pub str_to_unsigned : ℕ → Option (List ℕ) → ℕ → Bool → StoError ℕ
  str_to_unsigned w str base writable =
      if not writable then invalid else elim (validate_and_parse_unsigned str base) [
        | success temp ↦ if ltb (2 ^ w - 1) temp then overflow else success (temp % 2 ^ w)
        | overflow ↦ overflow
        | underflow ↦ underflow
        | invalid ↦ invalid
      ]

  pub str_to_uintptr : Option (List ℕ) → Bool → StoError ℕ
  str_to_uintptr str writable =
      if not writable then invalid else elim (validate_and_parse_unsigned str 10) [
        | success temp ↦ success (temp % 2 ^ 64)
        | overflow ↦ overflow
        | underflow ↦ underflow
        | invalid ↦ invalid
      ]

-- The texts of the table of truth values: "true", "false", "yes", "no", "on", "off", "1", "0".
abbrev pub bool_mappings : List (List ℕ × Bool)
bool_mappings =
    (116 ∷ 114 ∷ 117 ∷ 101 ∷ [], true)
    ∷ (102 ∷ 97 ∷ 108 ∷ 115 ∷ 101 ∷ [], false)
    ∷ (121 ∷ 101 ∷ 115 ∷ [], true)
    ∷ (110 ∷ 111 ∷ [], false)
    ∷ (111 ∷ 110 ∷ [], true)
    ∷ (111 ∷ 102 ∷ 102 ∷ [], false)
    ∷ (49 ∷ [], true)
    ∷ (48 ∷ [], false)
    ∷ []

-- `strcasecmp` is a parameter; it tells whether the two texts compare equal.
module _ (strcasecmp : List ℕ → List ℕ → Bool) where
  pub find_mapping : List ℕ → List (List ℕ × Bool) → StoError Bool
  find_mapping text [] = invalid
  find_mapping text ((name, value) ∷ rest) =
      if strcasecmp text name then success value else find_mapping text rest

  pub str_to_bool : Option (List ℕ) → Bool → StoError Bool
  str_to_bool none writable = invalid
  str_to_bool (some text) writable =
      if not writable then invalid else find_mapping text bool_mappings
