-- ===== src/Strsim/Tests.antt =====
-- `strsim_levenshtein` of src/strsim.c at concrete strings.
use solidc.Base.{ℕ, ◌≤◌, ◌≡◌, ◌⊎◌, refl, Bool, true, false, some, none, List, [], ◌∷◌, max}
use solidc.Strsim.{
  strsim_levenshtein, distance_of, fill_table, fill_row, first_row, last_entry, min3, min2,
  distance, no_memory, invalid,
}
use solidc.Strsim.Table.{IsDistance, strsim_levenshtein_lem, distance-le-length}

abbrev grants_all : ℕ → Bool
grants_all n = true

-- "abcd" and "bxd"
abbrev left_word : List ℕ
left_word = b'a' ∷ b'b' ∷ b'c' ∷ b'd' ∷ []

abbrev right_word : List ℕ
right_word = b'b' ∷ b'x' ∷ b'd' ∷ []

two_apart : strsim_levenshtein grants_all (some left_word) (some right_word) true ≡ distance 2
unfolding strsim_levenshtein distance_of fill_table fill_row first_row last_entry min3 min2
two_apart = refl

refuses_null : strsim_levenshtein grants_all none (some right_word) true ≡ invalid
unfolding strsim_levenshtein
refuses_null = refl

strsim_levenshtein_lem_example :
    ((n : ℕ) × (strsim_levenshtein grants_all (some left_word) (some right_word) true ≡ distance n)
      × IsDistance left_word right_word n)
    ⊎ ((strsim_levenshtein grants_all (some left_word) (some right_word) true ≡ no_memory)
        × (true ≡ false))
strsim_levenshtein_lem_example = strsim_levenshtein_lem grants_all left_word right_word

distance-le-length_example : 2 ≤ max 4 3
distance-le-length_example = distance-le-length grants_all left_word right_word 2 two_apart
