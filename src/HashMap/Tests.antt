-- ===== src/HashMap/Tests.antt =====
-- src/map.c at small tables of numbers, where the hash of a number is the number.
use Prim.Native.Nat.{bit_and}
use solidc.Base.{
  ℕ, ◌*◌, ◌≤◌, ◌<◌, ◌≡◌, ◌≢◌, refl, sym, ◌∙◌, ◌⊎◌, Bool, true, false, none, some, List, [], ◌∷◌,
  arith, leb, ◌==◌, ◌||◌, replicate, ==→eq, ==_refl, ◌+◌, ◌&&◌,
}
use solidc.HashMap.{
  HashMap, Slot, empty, entry, slot_at, map_get, map_set, map_remove, store, placed, shift_back,
  next_power_of_two, get_loop, make_room, map_resize, calculate_new_capacity, rehash, set_in,
}
use solidc.HashMap.Slots.{slot_at-replicate}
use solidc.HashMap.Room.{IsRefused}
use solidc.HashMap.Insert.{written-Arranged}
use solidc.HashMap.Resize.{fresh-Arranged}
use solidc.HashMap.Table.{IsValid}
use solidc.HashMap.Assign.{IsAssigned}
use solidc.HashMap.Set.{map_set_lem}
use solidc.HashMap.Iterate.{walk, entries, map_next_lem}
use solidc.HashMap.Erase.{IsRemoved, map_remove_lem}

abbrev number : ℕ → ℕ → ℕ
number k len = k

abbrev same : ℕ → ℕ → Bool
same a b = a == b

abbrev three_quarters : ℕ → ℕ → Bool
three_quarters n c = leb (c * 3) (n * 4) || leb c n

abbrev grants_all : ℕ → Bool
grants_all n = true

-- Only the key 3.
abbrev one : HashMap ℕ ℕ
one = record {
  slots = empty ∷ empty ∷ empty ∷ entry 3 30 0 ∷ empty ∷ empty ∷ empty ∷ empty ∷ [];
  size = 1;
  capacity = 8;
}

-- Keys of one bucket, and the key of the next bucket that they displace.
crowded : List (Slot ℕ ℕ)
crowded = empty ∷ empty ∷ empty ∷ entry 3 30 0 ∷ entry 11 110 1 ∷ entry 4 40 1 ∷ empty ∷ empty ∷ []

robs :
    store same 8
      (empty ∷ empty ∷ empty ∷ entry 3 30 0 ∷ entry 4 40 0 ∷ empty ∷ empty ∷ empty ∷ [])
      7
      3
      11
      110
      0
    ≡ placed crowded
unfolding store crowded
robs = refl

shifts :
    shift_back 9 crowded 7 3
    ≡ some (empty ∷ empty ∷ empty ∷ entry 11 110 0 ∷ entry 4 40 0 ∷ empty ∷ empty ∷ empty ∷ [])
unfolding shift_back crowded
shifts = refl

rounds_up : next_power_of_two 100 ≡ 128
unfolding next_power_of_two
rounds_up = refl

one-IsValid : IsValid number 8 one
one-IsValid = record {
  arranged =
      written-Arranged (replicate 8 empty) 3 3 30 0 (omega arith) (λ k. bit_and (number k 8) 7)
        (fresh-Arranged (λ k. bit_and (number k 8) 7) 8) (omega arith) refl
        (λ e h. absurd (omega arith)) nothing (λ e a. no_resident a.0 a.1 a.2 e a.3);
  width = refl;
  bits = 3;
  power = refl;
  wide = omega arith;
  count = refl;
}
  where
    nothing : (i : ℕ) (v d : ℕ) → slot_at {K = ℕ} {V = ℕ} (replicate 8 empty) i ≢ entry 3 v d
    nothing i v d e = let clash = sym (slot_at-replicate ℕ ℕ 8 i) ∙ e in cc clash

    no_resident :
        (k v d e : ℕ) → slot_at {K = ℕ} {V = ℕ} (replicate 8 empty) 3 ≡ entry k v d → e ≤ 0
    no_resident k v d e c = let clash = sym (slot_at-replicate ℕ ℕ 8 3) ∙ c in absurd (cc clash)

same_sound : (a b : ℕ) → same a b ≡ true → a ≡ b
same_sound = ==→eq

room_below : (n c : ℕ) → three_quarters n c ≡ false → n < c
room_below n c h = ground arith

map_set_lem_example :
    ((m' : HashMap ℕ ℕ) × (map_set number grants_all three_quarters same (some one) (some 11) 8 110
        ≡ (true, some m', map_get number same (some one) (some 11) 8))
      × IsAssigned number same same_sound ==_refl 8 one 11 110 m')
    ⊎ ((map_set number grants_all three_quarters same (some one) (some 11) 8 110
          ≡ (false, some one, none))
        × (three_quarters 1 8 ≡ true)
        × IsRefused grants_all 16)
map_set_lem_example =
    map_set_lem number same same_sound ==_refl 8 grants_all three_quarters room_below one 11 110
      one-IsValid

map_remove_lem_example :
    ((v : ℕ) × (d : ℕ) × (m' : HashMap ℕ ℕ) × (map_get number same (some one) (some 3) 8 ≡ some v)
      × (map_remove number same (some one) (some 3) 8 ≡ some (true, some m', entry 3 v d))
      × IsRemoved number same same_sound ==_refl 8 one one-IsValid 3 m')
    ⊎ ((map_get number same (some one) (some 3) 8 ≡ none)
        × (map_remove number same (some one) (some 3) 8 ≡ some (false, some one, empty)))
map_remove_lem_example =
    map_remove_lem number same same_sound ==_refl 8 one one-IsValid 3 (omega arith)

abbrev by_length : ℕ → ℕ → ℕ
by_length k len = k + len

-- A load limit that is reached by one entry in eight slots.
abbrev soon : ℕ → ℕ → Bool
soon n c = leb 1 n && c == 8

-- The key 3, which was set with the length 1.
abbrev short_key : HashMap ℕ ℕ
short_key = record {
  slots = empty ∷ empty ∷ empty ∷ empty ∷ entry 3 30 0 ∷ empty ∷ empty ∷ empty ∷ [];
  size = 1;
  capacity = 8;
}

finds_key : map_get by_length same (some short_key) (some 3) 1 ≡ some 30
unfolding map_get get_loop
finds_key = refl

-- The growth on the way to a key of the length 5 hashes the key 3 with that length.
loses_key :
    map_get by_length same
      ((map_set by_length grants_all soon same (some short_key) (some 9) 5 90).1)
      (some 3)
      1
    ≡ none
unfolding map_get get_loop map_set make_room map_resize calculate_new_capacity rehash store set_in
loses_key = refl

map_next_lem_example : walk 9 one 0 ≡ entries one.slots
map_next_lem_example = map_next_lem one refl
