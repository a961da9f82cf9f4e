-- ===== src/HashMap/Iterate.antt =====
-- The iteration of src/map.c: map_next, called until it returns false.
use solidc.Base.{
  ℕ, zero, suc, ◌+◌, ◌-◌, ◌≤◌, ◌<◌, ◌≡◌, refl, sym, ap, ◌∙◌, inl, inr, Option, none, some, List, [],
  ◌∷◌, ltb, length, drop, arith, Bool-cases, ltb→lt, ltb→ge,
}
use solidc.HashMap.{HashMap, Slot, empty, entry, slot_at, next_loop, map_next}

module _ {ℓ} {K V : Type ℓ} where
  -- The entries of the slots, in their order.
  pub entries : List (Slot K V) → List (K × V)
  entries [] = []
  entries (empty ∷ slots) = entries slots
  entries (entry key value dist ∷ slots) = (key, value) ∷ entries slots

  abbrev visit : Option (K × V) × ℕ → (ℕ → List (K × V)) → List (K × V)
  visit (none, i) further = []
  visit (some e, i) further = e ∷ further i

  -- What the calls of `map_next` give, at most `fuel` of them.
  pub walk : ℕ → HashMap K V → ℕ → List (K × V)
  walk zero m index = []
  walk (suc fuel) m index = visit (map_next m index) (λ i. walk fuel m i)

  entries-drop :
      (slots : List (Slot K V)) (index : ℕ)
      → index < length slots
      → entries (drop index slots) ≡ entries (slot_at slots index ∷ drop (suc index) slots)
  entries-drop [] index h = absurd (omega arith)
  entries-drop (slot ∷ slots) zero h = refl
  entries-drop (slot ∷ slots) (suc index) h = entries-drop slots index (omega arith)

  entries-end :
      (slots : List (Slot K V)) (index : ℕ) → length slots ≤ index → entries (drop index slots) ≡ []
  unfolding entries
  entries-end [] zero h = refl
  entries-end [] (suc index) h = refl
  entries-end (slot ∷ slots) zero h = absurd (omega arith)
  entries-end (slot ∷ slots) (suc index) h = entries-end slots index (omega arith)

  -- The next entry and what is behind it, or no entry.
  abbrev Found : List (Slot K V) → ℕ → Option (K × V) × ℕ → Type ℓ
  Found slots index (none, i) = entries (drop index slots) ≡ []
  Found slots index (some e, i) =
      (entries (drop index slots) ≡ e ∷ entries (drop i slots)) × (index < i)

  earlier_Found :
      (slots : List (Slot K V)) (index : ℕ) (r : Option (K × V) × ℕ)
      → entries (drop index slots) ≡ entries (drop (index + 1) slots)
      → Found slots (index + 1) r
      → Found slots index r
  earlier_Found slots index (none, i) same found = same ∙ found
  earlier_Found slots index (some e, i) same found = (same ∙ found.0, omega (arith, found.1))

  present-entries :
      (slots : List (Slot K V)) (index : ℕ) (slot : Slot K V)
      → index < length slots
      → slot_at slots index ≡ slot
      → entries (drop index slots) ≡ entries (slot ∷ drop (index + 1) slots)
  present-entries slots index slot h e =
      let more : suc index ≡ index + 1 = omega arith in
      entries-drop slots index h
      ∙ ap (λ s. entries (s ∷ drop (suc index) slots)) e
      ∙ ap (λ i. entries (slot ∷ drop i slots)) more

  present_step :
      (fuel : ℕ) (slots : List (Slot K V)) (index : ℕ) (slot : Slot K V)
      → index < length slots
      → slot_at slots index ≡ slot
      → Found slots (index + 1) (next_loop fuel slots (index + 1))
      → Found slots index (next_loop (suc fuel) slots index)
  unfolding next_loop entries
  present_step fuel slots index empty h e rest =
      rw (e, next_loop)
        (earlier_Found slots index (next_loop fuel slots (index + 1))
          (present-entries slots index empty h e) rest)
  present_step fuel slots index (entry key value dist) h e rest =
      rw (e, next_loop) (present-entries slots index (entry key value dist) h e, omega arith)

  next_loop-Found :
      (fuel : ℕ) (slots : List (Slot K V)) (index : ℕ)
      → index + fuel ≡ length slots
      → Found slots index (next_loop fuel slots index)
  unfolding next_loop entries
  next_loop-Found zero slots index h = entries-end slots index (omega (arith, h))
  next_loop-Found (suc fuel) slots index h =
      present_step fuel slots index _ (omega (arith, h)) refl
        (next_loop-Found fuel slots (index + 1) (omega (arith, h)))

  module _ (m : HashMap K V) (width : length m.slots ≡ m.capacity) where
    map_next-Found : (index : ℕ) → Found m.slots index (map_next m index)
    unfolding map_next
    map_next-Found index = elim (Bool-cases (ltb index m.capacity)) [
      | inl inside ↦
          rw (inside, map_next)
            (next_loop-Found (m.capacity - index) m.slots index
              (omega (arith, width, ltb→lt index m.capacity inside)))
      | inr outside ↦
          rw (outside, map_next)
            (entries-end m.slots index (omega (arith, width, ltb→ge index m.capacity outside)))
    ]

    walk-step :
        (fuel index : ℕ) (r : Option (K × V) × ℕ)
        → map_next m index ≡ r
        → Found m.slots index r
        → ((i : ℕ) → index < i → walk fuel m i ≡ entries (drop i m.slots))
        → walk (suc fuel) m index ≡ entries (drop index m.slots)
    unfolding walk
    walk-step fuel index (none, i) e found rest =
        ap (λ r. visit r (λ j. walk fuel m j)) e ∙ sym found
    walk-step fuel index (some x, i) e found rest =
        ap (λ r. visit r (λ j. walk fuel m j)) e ∙ ap (λ t. x ∷ t) (rest i found.1) ∙ sym found.0

    walk-entries :
        (fuel index : ℕ)
        → m.capacity < index + fuel
        → walk fuel m index ≡ entries (drop index m.slots)
    unfolding walk
    walk-entries zero index h = sym (entries-end m.slots index (omega (arith, width, h)))
    walk-entries (suc fuel) index h =
        walk-step fuel index _ refl (map_next-Found index)
          (λ i later. walk-entries fuel i (omega (arith, h, later)))

    -- On a map with a slot for each unit of its capacity, map_next, called from the index 0 until it
    -- returns false, gives each entry of the slots once, in their order, and one call more than the
    -- capacity is enough.
    pub map_next_lem : walk (suc m.capacity) m 0 ≡ entries m.slots
    map_next_lem = walk-entries (suc m.capacity) 0 (omega arith)
