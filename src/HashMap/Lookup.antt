-- ===== src/HashMap/Lookup.antt =====
-- The searches of map_get and map_remove in src/map.c.
use Prim.Native.Nat.{bit_and}
use solidc.Base.{
  ℕ, zero, suc, ◌+◌, ◌-◌, ◌^◌, ◌≤◌, ◌<◌, ◌≡◌, refl, sym, ap, ◌∙◌, inl, inr, Bool, true, false,
  Option, none, some, List, arith, ltb, length, Bool-cases, ge→ltb,
}
use solidc.HashMap.{Slot, empty, entry, slot_at, get_loop, position}
use solidc.HashMap.Slots.{Slot-cases}
use solidc.HashMap.Insert.{index_cases}
use solidc.HashMap.Probe.{along, along-suc, masked, Missing, Arranged}

abbrev pub value_of {ℓ} : {K V : Type ℓ} → Slot K V → Option V
value_of empty = none
value_of (entry k v d) = some v

abbrev pub value_at {ℓ} : {K V : Type ℓ} → List (Slot K V) → Option ℕ → Option V
value_at slots none = none
value_at slots (some i) = value_of (slot_at slots i)

module _ {ℓ} {K V : Type ℓ} (matches : K → K → Bool) (mask : ℕ) (slots : List (Slot K V))
    (k : K) where
  position-zero : (idx dist : ℕ) → position matches zero slots mask idx k dist ≡ none
  unfolding position
  position-zero idx dist = refl

  -- One round of the search, by what the slot holds.
  module _ (fuel idx dist : ℕ) where
    position-empty :
        slot_at slots idx ≡ empty → position matches (suc fuel) slots mask idx k dist ≡ none
    unfolding position
    position-empty e = rw (position, e) refl

    module _ (k' : K) (v' : V) (d' : ℕ) (e : slot_at slots idx ≡ entry k' v' d') where
      position-richer :
          ltb d' dist ≡ true → position matches (suc fuel) slots mask idx k dist ≡ none
      unfolding position
      position-richer richer = rw (position, e, richer) refl

      position-match :
          ltb d' dist ≡ false
          → matches k' k ≡ true
          → position matches (suc fuel) slots mask idx k dist ≡ some idx
      unfolding position
      position-match poorer same = rw (position, e, poorer, same) refl

      position-pass :
          ltb d' dist ≡ false
          → matches k' k ≡ false
          → position matches (suc fuel) slots mask idx k dist
            ≡ position matches fuel slots mask (bit_and (idx + 1) mask) k (dist + 1)
      unfolding position
      position-pass poorer other = rw (position, e, poorer, other) refl

  -- `map_get` gives the value at the position that `map_remove` finds.
  pub get_loop-position :
      (fuel idx dist : ℕ)
      → get_loop matches fuel slots mask idx k dist
        ≡ value_at slots (position matches fuel slots mask idx k dist)
  unfolding get_loop position
  get_loop-position zero idx dist = refl
  get_loop-position (suc fuel) idx dist = elim (Slot-cases (slot_at slots idx)) [
    | inl e ↦ rw (get_loop, position, e) refl
    | inr (k', v', d', e) ↦ elim (Bool-cases (ltb d' dist)) [
      | inl richer ↦ rw (get_loop, position, e, richer) refl
      | inr poorer ↦ elim (Bool-cases (matches k' k)) [
        | inl same ↦
            rw (get_loop, e, poorer, same)
              (sym (ap value_of e)
                ∙ ap (value_at slots) (sym (position-match fuel idx dist k' v' d' e poorer same)))
        | inr other ↦
            rw (get_loop, e, poorer, other)
              (get_loop-position fuel (bit_and (idx + 1) mask) (dist + 1)
                ∙ ap (value_at slots) (sym (position-pass fuel idx dist k' v' d' e poorer other)))
      ]
    ]
  ]

module _ {ℓ} {K V : Type ℓ} (home : K → ℕ) (matches : K → K → Bool) (bits : ℕ)
    (slots : List (Slot K V)) (power : length slots ≡ 2 ^ bits) (k : K) where
  -- Of a key that the table does not have, no position is found.
  pub position-Missing :
      ((a b : K) → matches a b ≡ true → a ≡ b)
      → Missing slots k
      → (fuel idx dist : ℕ) → position matches fuel slots (length slots - 1) idx k dist ≡ none
  position-Missing sound missing zero idx dist =
      position-zero matches (length slots - 1) slots k idx dist
  position-Missing sound missing (suc fuel) idx dist = elim (Slot-cases (slot_at slots idx)) [
    | inl e ↦ position-empty matches (length slots - 1) slots k fuel idx dist e
    | inr (k', v', d', e) ↦ elim (Bool-cases (ltb d' dist)) [
      | inl richer ↦
          position-richer matches (length slots - 1) slots k fuel idx dist k' v' d' e richer
      | inr poorer ↦ elim (Bool-cases (matches k' k)) [
        | inl same ↦ absurd (missing idx v' d' (e ∙ ap (λ y. entry y v' d') (sound k' k same)))
        | inr other ↦
            position-pass matches (length slots - 1) slots k fuel idx dist k' v' d' e poorer other
            ∙ position-Missing sound missing fuel (bit_and (idx + 1) (length slots - 1)) (dist + 1)
      ]
    ]
  ]

  -- The position of an entry is found from any step on the way to it.
  pub position-stands :
      ((a b : K) → matches a b ≡ true → a ≡ b)
      → matches k k ≡ true
      → Arranged home slots
      → (i : ℕ) (w : V) (d : ℕ) → slot_at slots i ≡ entry k w d
      → (fuel dist : ℕ) → dist ≤ d
      → d < fuel + dist
      → position matches fuel slots (length slots - 1) (along (length slots) (home k) dist) k dist
        ≡ some i
  position-stands sound same arranged i w d e zero dist le lt = absurd (omega arith)
  position-stands sound same arranged i w d e (suc fuel) dist le lt = elim (index_cases dist d) [
    | inl last ↦
        let idx = along (length slots) (home k) dist in
        let reached : idx ≡ i =
          ap (along (length slots) (home k)) last ∙ sym (arranged.stands i k w d e).0 in
        position-match matches (length slots - 1) slots k fuel idx dist k w d
          (ap (slot_at slots) reached ∙ e) (ge→ltb d dist le) same
        ∙ ap some reached
    | inr before ↦
        let idx = along (length slots) (home k) dist in
        let (k', v', d', e', le') = arranged.passed i k w d e dist (omega arith) in
        elim (Bool-cases (matches k' k)) [
          | inl equal ↦
              position-match matches (length slots - 1) slots k fuel idx dist k' v' d' e'
                (ge→ltb d' dist le') equal
              ∙ ap some (
                  arranged.single idx i k v' w d' d
                    (e' ∙ ap (λ y. entry y v' d') (sound k' k equal)) e)
          | inr other ↦
              position-pass matches (length slots - 1) slots k fuel idx dist k' v' d' e'
                (ge→ltb d' dist le') other
              ∙ ap (λ j. position matches fuel slots (length slots - 1) j k (dist + 1))
                  (masked bits (idx + 1) (length slots) power
                    ∙ along-suc (length slots) (omega (arith, arranged.stands i k w d e)) (home k)
                        dist)
              ∙ position-stands sound same arranged i w d e fuel (dist + 1) (omega arith)
                  (omega arith)
        ]
  ]
