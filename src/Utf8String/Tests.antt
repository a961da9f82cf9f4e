-- ===== src/Utf8String/Tests.antt =====
-- The string of src/unicode.c at concrete texts.
use solidc.Base.{
  ℕ, ◌+◌, ◌≡◌, ◌<◌, ◌⊎◌, refl, Bool, true, false, some, none, List, [], ◌∷◌, ◌++◌, arith, size_max,
  length,
}
use solidc.Unicode.{
  ucp_to_utf8, utf8_valid_byte_count, utf8_count_codepoints, count_valid, count_round, count_from,
  is_ascii, leads_two, leads_three, leads_four, continues, join_two, join_three, join_four,
}
use solidc.Unicode.Valid.{AreScalars, encode_all}
use solidc.Utf8String.{
  utf8_concat, Utf8String, struct_size, utf8_new, utf8_append, utf8_insert, utf8_remove,
  utf8_substr, utf8_string_grow, overrun, copy,
}
use solidc.Utf8String.Holds.{Holds, utf8_new_lem}
use solidc.Utf8String.Concat.{utf8_concat_lem}
use solidc.Utf8String.Change.{IsRefused, utf8_append_lem}
use solidc.Utf8String.Insert.{utf8_insert_lem}
use solidc.Utf8String.Remove.{utf8_remove_lem}
use solidc.Utf8String.Range.{utf8_substr_lem, utf8_substr-overruns}

abbrev grants_all : ℕ → Bool
grants_all n = true

-- "é€"
abbrev cps : List ℕ
cps = 0xE9 ∷ 0x20AC ∷ []

abbrev text : Utf8String
text = record { bytes = 0xC3 ∷ 0xA9 ∷ 0xE2 ∷ 0x82 ∷ 0xAC ∷ []; length = 5; count = 2; capacity = 5 }

cps-AreScalars : AreScalars cps
cps-AreScalars = omega arith

text-Holds : Holds text cps
unfolding ucp_to_utf8
text-Holds = record {
  scalars = cps-AreScalars;
  bytes_eq = refl;
  length_eq = refl;
  count_eq = refl;
  room = omega arith;
  small = omega arith;
}

-- A stray byte before an "a": the append copies the first of the two bytes, not the "a".
appends_stray_byte : utf8_append grants_all (some text) (some (0xFF ∷ 0x61 ∷ [])) ≡ (
  true,
  some (record {
    bytes = 0xC3 ∷ 0xA9 ∷ 0xE2 ∷ 0x82 ∷ 0xAC ∷ 0xFF ∷ [];
    length = 6;
    count = 4;
    capacity = 10;
  }),
)
unfolding utf8_append utf8_string_grow utf8_valid_byte_count utf8_count_codepoints count_valid
    count_round count_from is_ascii leads_two leads_three leads_four continues join_two join_three
    join_four
appends_stray_byte = refl

utf8_new_lem_example :
    ((s : Utf8String) × (utf8_new grants_all (some (encode_all cps)) ≡ some s) × Holds s cps)
    ⊎ ((utf8_new grants_all (some (encode_all cps)) ≡ none)
        × ((size_max < length (encode_all cps) + struct_size + 1)
            ⊎ (grants_all (struct_size + length (encode_all cps) + 1) ≡ false)))
utf8_new_lem_example = utf8_new_lem cps cps-AreScalars grants_all

encoded_length : length (encode_all cps) ≡ 5
unfolding ucp_to_utf8
encoded_length = refl

e_acute_length : 2 ≡ length (encode_all (0xE9 ∷ []))
unfolding ucp_to_utf8
e_acute_length = refl

utf8_append_lem_example :
    ((s : Utf8String) × (utf8_append grants_all (some text) (some (encode_all cps))
        ≡ (true, some s))
      × Holds s (cps ++ cps))
    ⊎ ((utf8_append grants_all (some text) (some (encode_all cps)) ≡ (false, some text))
        × IsRefused grants_all text (5 + length (encode_all cps)))
utf8_append_lem_example =
    utf8_append_lem grants_all text cps cps text-Holds cps-AreScalars
      (omega (arith, encoded_length))

utf8_insert_lem_example :
    ((s : Utf8String) × (utf8_insert grants_all (some text) 2 (some (encode_all cps))
        ≡ (true, some s))
      × Holds s (0xE9 ∷ cps ++ (0x20AC ∷ [])))
    ⊎ ((utf8_insert grants_all (some text) 2 (some (encode_all cps)) ≡ (false, some text))
        × IsRefused grants_all text (5 + length (encode_all cps)))
utf8_insert_lem_example =
    utf8_insert_lem grants_all text (0xE9 ∷ []) cps (0x20AC ∷ []) 2 text-Holds cps-AreScalars
      e_acute_length (omega (arith, encoded_length))

utf8_remove_lem_example :
    (s : Utf8String) × (utf8_remove (some text) 2 7 ≡ some (true, some s)) × Holds s (0xE9 ∷ [])
utf8_remove_lem_example =
    utf8_remove_lem text (0xE9 ∷ []) (0x20AC ∷ []) 7 text-Holds 2 e_acute_length (omega arith)
      (omega arith)

utf8_substr_lem_example : utf8_substr grants_all (some text) 2 9 ≡ copy (0xE2 ∷ 0x82 ∷ 0xAC ∷ [])
utf8_substr_lem_example =
    utf8_substr_lem grants_all text 2 9 (omega arith) (omega arith) (omega arith) (omega arith)
      (λ n. refl)

utf8_substr-overruns_example : utf8_substr grants_all (some text) 2 size_max ≡ overrun
utf8_substr-overruns_example =
    utf8_substr-overruns grants_all text 2 size_max (omega arith) (omega arith) (omega arith)
      (omega arith) (λ n. refl)

utf8_concat_lem_example :
    ((s : Utf8String) × (utf8_concat grants_all (some text) (some text) ≡ some s)
      × Holds s (cps ++ cps))
    ⊎ ((utf8_concat grants_all (some text) (some text) ≡ none)
        × ((size_max < 5 + 5 + struct_size + 1) ⊎ (grants_all (struct_size + (5 + 5) + 1) ≡ false)))
utf8_concat_lem_example =
    utf8_concat_lem grants_all text text cps cps text-Holds text-Holds (omega arith)
