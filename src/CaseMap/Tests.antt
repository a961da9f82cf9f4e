-- ===== src/CaseMap/Tests.antt =====
-- utf8_tolower and utf8_toupper of src/unicode.c at concrete texts.
use solidc.Base.{
  ℕ, zero, suc, none, ◌<◌, ◌≡◌, refl, Bool, true, some, [], ◌∷◌, map, arith, ◌==◌, if◌then◌else◌,
}
use solidc.Unicode.{
  is_ascii, leads_two, continues, join_two, count_valid, count_round, leads_three, IsScalar,
  ucp_to_utf8, utf8_to_codepoint, utf8_char_length, utf8_valid_byte_count,
}
use solidc.Unicode.Valid.{encode_all}
use solidc.CaseMap.{
  map_case, stays_inside, encoded, ascii_lower, ascii_upper, is_upper, is_lower, utf8_tolower,
  utf8_toupper,
}
use solidc.CaseMap.Ascii.{ascii_case_lem}
use solidc.CaseMap.Loop.{changed, HasRoom, utf8_tolower_lem, utf8_toupper_lem}

-- "É" and "é" alone change their case.
abbrev is_acute_capital : ℕ → Bool
is_acute_capital cp = cp == 0xC9

abbrev to_acute_small : ℕ → ℕ
to_acute_small cp = if cp == 0xC9 then 0xE9 else cp

abbrev is_acute_small : ℕ → Bool
is_acute_small cp = cp == 0xE9

abbrev to_acute_capital : ℕ → ℕ
to_acute_capital cp = if cp == 0xE9 then 0xC9 else cp

small_IsScalar :
    (cp : ℕ)
    → IsScalar cp
    → is_acute_capital cp ≡ true
    → IsScalar (to_acute_small cp) × (0 < to_acute_small cp)
small_IsScalar cp sc h = rw h (omega arith)

capital_IsScalar :
    (cp : ℕ)
    → IsScalar cp
    → is_acute_small cp ≡ true
    → IsScalar (to_acute_capital cp) × (0 < to_acute_capital cp)
capital_IsScalar cp sc h = rw h (omega arith)

-- '@' becomes '`' and back.
at_sign : (ascii_lower 64 ≡ 96) × (ascii_upper 96 ≡ 64)
unfolding ascii_lower ascii_upper is_upper is_lower
at_sign = (refl, refl)

ascii_case_lem_example : (ascii_lower 65 ≡ 97) × (ascii_upper 65 ≡ 65)
ascii_case_lem_example = ascii_case_lem 65 (omega arith)

-- U+023A takes two bytes and its small letter U+2C65 three, which the buffer of the text, its
-- terminator included, does not have.
abbrev is_barred : ℕ → Bool
is_barred cp = cp == 0x23A

abbrev to_barred : ℕ → ℕ
to_barred cp = 0x2C65

leaves_buffer : utf8_tolower is_barred to_barred 3 (some (0xC8 ∷ 0xBA ∷ [])) ≡ none
unfolding utf8_tolower map_case stays_inside encoded ucp_to_utf8 utf8_to_codepoint utf8_char_length
    utf8_valid_byte_count is_ascii leads_two continues join_two count_valid count_round leads_three
leaves_buffer = refl

lower_HasRoom : HasRoom ascii_lower is_acute_capital to_acute_small 7 (65 ∷ 0xC9 ∷ 0x20AC ∷ [])
unfolding ucp_to_utf8 ascii_lower is_upper is_lower
lower_HasRoom zero = omega arith
lower_HasRoom (suc zero) = omega arith
lower_HasRoom (suc (suc zero)) = omega arith
lower_HasRoom (suc (suc (suc zero))) = omega arith
lower_HasRoom (suc (suc (suc (suc k)))) = omega arith

upper_HasRoom : HasRoom ascii_upper is_acute_small to_acute_capital 7 (97 ∷ 0xE9 ∷ 0x20AC ∷ [])
unfolding ucp_to_utf8 ascii_upper is_upper is_lower
upper_HasRoom zero = omega arith
upper_HasRoom (suc zero) = omega arith
upper_HasRoom (suc (suc zero)) = omega arith
upper_HasRoom (suc (suc (suc zero))) = omega arith
upper_HasRoom (suc (suc (suc (suc k)))) = omega arith

utf8_tolower_lem_example :
    utf8_tolower is_acute_capital to_acute_small 7 (some (encode_all (65 ∷ 0xC9 ∷ 0x20AC ∷ [])))
    ≡ some (
        some (
          encode_all
            (map (changed ascii_lower is_acute_capital to_acute_small) (65 ∷ 0xC9 ∷ 0x20AC ∷ []))))
utf8_tolower_lem_example =
    utf8_tolower_lem is_acute_capital to_acute_small small_IsScalar (65 ∷ 0xC9 ∷ 0x20AC ∷ []) 7
      (omega arith) lower_HasRoom

utf8_toupper_lem_example :
    utf8_toupper is_acute_small to_acute_capital 7 (some (encode_all (97 ∷ 0xE9 ∷ 0x20AC ∷ [])))
    ≡ some (
        some (
          encode_all
            (map (changed ascii_upper is_acute_small to_acute_capital) (97 ∷ 0xE9 ∷ 0x20AC ∷ []))))
utf8_toupper_lem_example =
    utf8_toupper_lem is_acute_small to_acute_capital capital_IsScalar (97 ∷ 0xE9 ∷ 0x20AC ∷ []) 7
      (omega arith) upper_HasRoom
