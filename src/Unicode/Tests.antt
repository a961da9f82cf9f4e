-- ===== src/Unicode/Tests.antt =====
-- The functions of src/unicode.c at concrete strings.
use solidc.Base.{ℕ, ◌≡◌, ◌≤◌, ◌<◌, ◌↔◌, refl, true, false, some, List, [], ◌∷◌, ◌++◌, arith, length}
use solidc.Unicode.{
  ucp_to_utf8, utf8_to_codepoint, is_valid_utf8, utf8_count_codepoints, utf8_valid_byte_count,
  utf8_char_length, valid_from, valid_round, is_ascii, leads_two, leads_three, leads_four,
  continues, join_two, join_three,
}
use solidc.Unicode.Encode.{utf8_to_codepoint-ucp_to_utf8}
use solidc.Unicode.Valid.{AreScalars, encode_all, is_valid_utf8_iff}
use solidc.Unicode.Count.{
  utf8_count_codepoints-encode_all, utf8_char_length-ucp_to_utf8, utf8_valid_byte_count-length,
}

-- "é€"
abbrev text : List ℕ
text = 0xC3 ∷ 0xA9 ∷ 0xE2 ∷ 0x82 ∷ 0xAC ∷ []

encode_euro : ucp_to_utf8 0x20AC ≡ 0xE2 ∷ 0x82 ∷ 0xAC ∷ []
unfolding ucp_to_utf8
encode_euro = refl

-- a surrogate, an overlong form, and a lone continuation byte
refuses :
    (is_valid_utf8 (some (0xED ∷ 0xA0 ∷ 0x80 ∷ [])) ≡ false)
    × (is_valid_utf8 (some (0xC0 ∷ 0x80 ∷ [])) ≡ false)
    × (is_valid_utf8 (some (0x80 ∷ [])) ≡ false)
unfolding is_valid_utf8 valid_from valid_round is_ascii leads_two leads_three leads_four continues
    join_two join_three
refuses = (refl, refl, refl)

text-is_valid_utf8 : is_valid_utf8 (some text) ≡ true
unfolding is_valid_utf8 valid_from valid_round is_ascii leads_two leads_three leads_four continues
    join_two join_three
text-is_valid_utf8 = refl

utf8_to_codepoint-ucp_to_utf8_example :
    utf8_to_codepoint (some (ucp_to_utf8 0x20AC ++ 0x41 ∷ [])) ≡ 0x20AC
utf8_to_codepoint-ucp_to_utf8_example =
    utf8_to_codepoint-ucp_to_utf8 0x20AC (0x41 ∷ []) (omega arith)

is_valid_utf8_iff_example :
    (is_valid_utf8 (some text) ≡ true) ↔ ((cps : List ℕ) × AreScalars cps × (text ≡ encode_all cps))
is_valid_utf8_iff_example = is_valid_utf8_iff text (omega arith)

utf8_count_codepoints-encode_all_example :
    utf8_count_codepoints (some (encode_all (0xE9 ∷ 0x20AC ∷ []))) ≡ 2
utf8_count_codepoints-encode_all_example =
    utf8_count_codepoints-encode_all (0xE9 ∷ 0x20AC ∷ []) (omega arith)

utf8_char_length-ucp_to_utf8_example :
    utf8_char_length (some (ucp_to_utf8 0x20AC ++ [])) ≡ length (ucp_to_utf8 0x20AC)
utf8_char_length-ucp_to_utf8_example = utf8_char_length-ucp_to_utf8 0x20AC [] (omega arith)

utf8_valid_byte_count-length_example : utf8_valid_byte_count (some text) ≡ 5
utf8_valid_byte_count-length_example = utf8_valid_byte_count-length text text-is_valid_utf8

-- `utf8_char_length` gives 2 at every lone continuation byte.
continuation_has_length :
    (b : ℕ) (s : List ℕ) → 0x80 ≤ b → b < 0xC0 → utf8_char_length (some (b ∷ s)) ≡ 2
unfolding utf8_char_length
continuation_has_length b s lo hi = ground arith
