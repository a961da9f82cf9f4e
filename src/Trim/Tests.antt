-- ===== src/Trim/Tests.antt =====
-- The trimming of src/unicode.c at concrete texts.
use solidc.Base.{ℕ, ◌≡◌, Bool, some, List, [], ◌∷◌, arith, ◌==◌}
use solidc.Unicode.Valid.{encode_all}
use solidc.Trim.{utf8_trim}
use solidc.Trim.Back.{utf8_trim_lem}

-- U+3000, the ideographic space
abbrev is_wide_space : ℕ → Bool
is_wide_space cp = cp == 0x3000

abbrev text : List ℕ
text = 0x3000 ∷ 0xE9 ∷ 0x3000 ∷ 65 ∷ 0x3000 ∷ 0x3000 ∷ []

utf8_trim_lem_example :
    utf8_trim is_wide_space (some (encode_all text))
    ≡ some (some (encode_all (0xE9 ∷ 0x3000 ∷ 65 ∷ [])))
utf8_trim_lem_example = utf8_trim_lem is_wide_space text (omega arith)
