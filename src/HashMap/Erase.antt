-- ===== src/HashMap/Erase.antt =====
-- map_remove of src/map.c, as map_get sees it.
use Prim.Native.Nat.{bit_and}
use solidc.Base.{
  ℕ, suc, ◌+◌, ◌-◌, ◌<◌, ◌≡◌, ◌≢◌, refl, sym, ap, ◌∙◌, ◌⊎◌, inl, inr, Bool, true, false, Option,
  none, some, List, arith, if◌then◌else◌, length, Bool-cases,
}
use solidc.HashMap.{HashMap, Slot, empty, entry, slot_at, position, shift_back, map_get, map_remove}
use solidc.HashMap.Slots.{empty_slot, entry_inj}
use solidc.HashMap.Probe.{along-reaches, Contains, Missing}
use solidc.HashMap.Update.{taken-inside}
use solidc.HashMap.Table.{
  IsValid, Contains-or_Missing, position_there, position_missed, map_get-Contains, map_get-Missing,
}
use solidc.HashMap.Assign.{same_get}
use solidc.HashMap.Hole.{Arranged-Holed}
use solidc.HashMap.Shift.{Closed}
use solidc.HashMap.Remove.{shift_back_lem}

module _ {ℓ} {K V : Type ℓ} (hash : K → ℕ → ℕ) (key_compare : K → K → Bool)
    (sound : (a b : K) → key_compare a b ≡ true → a ≡ b)
    (reflexive : (a : K) → key_compare a a ≡ true) (len : ℕ) (m : HashMap K V)
    (valid : IsValid hash len m) (k : K) where
  found : Option ℕ
  found =
      position key_compare m.capacity m.slots (m.capacity - 1)
        (bit_and (hash k len) (m.capacity - 1)) k 0

  remove-missed :
      found ≡ none → map_remove hash key_compare (some m) (some k) len ≡ some (false, some m, empty)
  unfolding map_remove found
  remove-missed e = rw (map_remove, e) refl

  remove-found :
      (i : ℕ) (slots : List (Slot K V))
      → found ≡ some i
      → shift_back (suc m.capacity) m.slots (m.capacity - 1) i ≡ some slots
      → map_remove hash key_compare (some m) (some k) len
        ≡ some (true, some (record m { slots = slots; size = m.size - 1 }), slot_at m.slots i)
  unfolding map_remove found
  remove-found i slots e e' = rw (map_remove, e, e') refl

  -- The map that is left when the entry of `k` is taken out of slot `i`.
  module _ (i : ℕ) (v : V) (d : ℕ) (e : slot_at m.slots i ≡ entry k v d) (slots : List (Slot K V))
      (c : Closed (λ x. bit_and (hash x len) (m.capacity - 1)) m.slots i slots) where
    abbrev pub left : HashMap K V
    left = record m { slots = slots; size = m.size - 1 }

    left-IsValid : IsValid hash len left
    left-IsValid = record {
      arranged = c.arranged;
      width = c.width ∙ valid.width;
      bits = valid.bits;
      power = valid.power;
      wide = valid.wide;
      count = omega (arith, valid.count, c.count);
    }

    left_keeps : (x : K) (w : V) → k ≢ x → Contains m.slots x w → Contains slots x w
    left_keeps x w ne (j, f, there) =
        c.keeps x w
          (j, f, (λ same. ne (entry_inj (sym e ∙ ap (slot_at m.slots) same ∙ there)).0), there)

    left_only : (x : K) (w : V) → Contains slots x w → Contains m.slots x w
    left_only x w there = let (j, f, ne, old) = c.only x w there in (j, f, old)

    left-Missing : Missing slots k
    left-Missing j w f there =
        let (j', f', ne, old) = c.only k w (j, f, there) in
        ne (valid.arranged.single i j' k v w d f' e old)

    left_get :
        (x : K)
        → map_get hash key_compare (some left) (some x) len
          ≡ (if key_compare k x then none else map_get hash key_compare (some m) (some x) len)
    left_get x = elim (Bool-cases (key_compare k x)) [
      | inl same ↦ rw same (
          ap (λ y. map_get hash key_compare (some left) (some y) len) (sym (sound k x same))
          ∙ map_get-Missing hash key_compare sound reflexive len left left-IsValid k left-Missing)
      | inr other ↦
          let apart : k ≢ x = λ p. cc (other, reflexive k, ap (λ y. key_compare k y) p) in
          rw other (
            same_get hash key_compare sound reflexive len m left valid left-IsValid x
              (λ w. left_keeps x w apart) (left_only x))
    ]

  -- `m'` is well-formed and is `m` without the key.
  pub record IsRemoved (m' : HashMap K V) : Type ℓ where
    pub still_valid : IsValid hash len m'
    pub size_eq : m'.size + 1 ≡ m.size
    pub get_eq :
        (x : K)
        → map_get hash key_compare (some m') (some x) len
          ≡ (if key_compare k x then none else map_get hash key_compare (some m) (some x) len)

  -- `map_remove` on a well-formed map with a free slot, of a key that is there, ends and returns true;
  -- it frees the key and its value and leaves a well-formed map with one entry less, where the key has
  -- no value and every other key what it had. Of a key that is not there it returns false and changes
  -- nothing. The key comparison decides equality, and all keys are hashed with one length.
  pub map_remove_lem :
      m.size < m.capacity
      → ((v : V) × (d : ℕ) × (m' : HashMap K V) × (map_get hash key_compare (some m) (some k) len
            ≡ some v)
          × (map_remove hash key_compare (some m) (some k) len ≡ some (true, some m', entry k v d))
          × IsRemoved m')
        ⊎ ((map_get hash key_compare (some m) (some k) len ≡ none)
            × (map_remove hash key_compare (some m) (some k) len ≡ some (false, some m, empty)))
  unfolding found
  map_remove_lem free = elim (Contains-or_Missing key_compare sound reflexive m.slots k) [
    | inr missing ↦ inr (
      map_get-Missing hash key_compare sound reflexive len m valid k missing,
      remove-missed (position_missed hash key_compare sound reflexive len m valid k missing),
    )
    | inl (v, (i, d, e)) ↦
        let inside =
          taken-inside (λ x. bit_and (hash x len) (m.capacity - 1)) m.slots k valid.arranged i v d
            e in
        let (p, within, hole) = empty_slot m.slots (omega (arith, valid.width, valid.count)) in
        let (t, lt, reaches) = along-reaches (length m.slots) (omega arith) i p inside within in
        let (slots, run, c) =
          shift_back_lem (λ x. bit_and (hash x len) (m.capacity - 1)) valid.bits m.capacity
            valid.power (suc m.capacity) m.slots i t
            (Arranged-Holed (λ x. bit_and (hash x len) (m.capacity - 1)) m.slots i k v d
              (omega (arith, valid.width, valid.wide)) inside e valid.arranged)
            valid.width (ap (slot_at m.slots) reaches ∙ hole) (omega (arith, valid.width)) in
        inl (
          v,
          d,
          left i v d e slots c,
          map_get-Contains hash key_compare sound reflexive len m valid k v (i, d, e),
          remove-found i slots
                (position_there hash key_compare sound reflexive len m valid k v i d e) run
              ∙ ap (λ s. some (true, some (left i v d e slots c), s)) e,
          record {
            still_valid = left-IsValid i v d e slots c;
            size_eq = omega (arith, valid.count, c.count);
            get_eq = left_get i v d e slots c;
          },
        )
  ]
