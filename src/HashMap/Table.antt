-- ===== src/HashMap/Table.antt =====
-- Whole maps of src/map.c: when they are well-formed, and what map_get says of them.
use Prim.Native.Nat.{bit_and}
use native.Mathlib.Nat.{mod-lt, one-le-pow}
use solidc.Base.{
  ℕ, zero, suc, ◌-◌, ◌^◌, ◌≤◌, ◌<◌, ◌≡◌, ◌≢◌, sym, ap, ◌∙◌, ◌⊎◌, inl, inr, Bool, true, none, some,
  List, [], ◌∷◌, arith, length, Bool-cases,
}
use solidc.HashMap.{min_capacity, HashMap, Slot, empty, entry, slot_at, position, map_get}
use solidc.HashMap.Slots.{occupied, empty_slot, entry_inj}
use solidc.HashMap.Probe.{along-zero, along-reaches, masked, Contains, Missing, Arranged}
use solidc.HashMap.Store.{OnWay}
use solidc.HashMap.Lookup.{value_of, value_at, get_loop-position, position-Missing, position-stands}

-- Every entry is where its hash leads, the capacity is a power of two and at least
-- the least one, and `size` is the number of
-- entries. All keys are hashed with the length `len`.
pub record IsValid {ℓ} {K V : Type ℓ} (hash : K → ℕ → ℕ) (len : ℕ) (m : HashMap K V) : Type ℓ where
  pub arranged : Arranged (λ k. bit_and (hash k len) (m.capacity - 1)) m.slots
  pub width : length m.slots ≡ m.capacity
  pub bits : ℕ
  pub power : m.capacity ≡ 2 ^ bits
  pub wide : min_capacity ≤ m.capacity
  pub count : m.size ≡ occupied m.slots

module _ {ℓ} {K V : Type ℓ} where
  pub capacity_pos : (m : HashMap K V) (bits : ℕ) → m.capacity ≡ 2 ^ bits → 0 < m.capacity
  capacity_pos m bits e = omega (arith, e, one-le-pow bits 2 (omega arith))

  Missing-cons :
      (s : Slot K V) (slots : List (Slot K V)) (k : K)
      → ((v : V) (d : ℕ) → s ≢ entry k v d)
      → Missing slots k
      → Missing (s ∷ slots) k
  Missing-cons s slots k first rest zero v d e = first v d e
  Missing-cons s slots k first rest (suc i) v d e = rest i v d e

  -- A key is in the table or it is missing.
  pub Contains-or_Missing :
      (matches : K → K → Bool)
      → ((a b : K) → matches a b ≡ true → a ≡ b)
      → ((a : K) → matches a a ≡ true)
      → (slots : List (Slot K V)) (k : K) → ((v : V) × Contains slots k v) ⊎ Missing slots k
  Contains-or_Missing matches sound reflexive [] k = inr (λ i v d e. cc e)
  Contains-or_Missing matches sound reflexive (empty ∷ slots) k =
      elim (Contains-or_Missing matches sound reflexive slots k) [
        | inl (v, (i, d, e)) ↦ inl (v, (suc i, d, e))
        | inr missing ↦ inr (Missing-cons empty slots k (λ v d e. cc e) missing)
      ]
  Contains-or_Missing matches sound reflexive (entry k' v' d' ∷ slots) k =
      elim (Bool-cases (matches k' k)) [
        | inl same ↦ inl (v', (0, d', ap (λ y. entry y v' d') (sound k' k same)))
        | inr other ↦ elim (Contains-or_Missing matches sound reflexive slots k) [
          | inl (v, (i, d, e)) ↦ inl (v, (suc i, d, e))
          | inr missing ↦ inr (
              Missing-cons (entry k' v' d') slots k
                (λ v d e. cc (other, reflexive k, ap (λ y. matches y k) (entry_inj e).0)) missing)
        ]
      ]

  -- A key that is missing can set out from its home when a slot is free.
  pub setting_out :
      (home : K → ℕ) (slots : List (Slot K V)) (k : K)
      → Arranged home slots
      → home k < length slots
      → occupied slots < length slots
      → Missing slots k
      → (t : ℕ) × (t < length slots) × OnWay home slots (home k) k 0 t
  setting_out home slots k arranged inside room missing =
      let (p, within, e) = empty_slot slots room in
      let (t, lt, reaches) = along-reaches (length slots) (omega arith) (home k) p inside within in
      (
        t,
        lt,
        record {
          arranged = arranged;
          inside = inside;
          here = sym (along-zero (length slots) (omega arith) (home k) inside);
          way = λ e lt'. absurd (omega arith);
          missing = missing;
          free = ap (slot_at slots) reaches ∙ e;
        },
      )

module _ {ℓ} {K V : Type ℓ} (hash : K → ℕ → ℕ) (key_compare : K → K → Bool)
    (sound : (a b : K) → key_compare a b ≡ true → a ≡ b)
    (reflexive : (a : K) → key_compare a a ≡ true) (len : ℕ) (m : HashMap K V)
    (valid : IsValid hash len m) where
  pub home_lt : (k : K) → bit_and (hash k len) (m.capacity - 1) < m.capacity
  home_lt k =
      rw (masked valid.bits (hash k len) m.capacity valid.power)
        (mod-lt (hash k len) (capacity_pos m valid.bits valid.power))

  -- The search from the key's home comes to its entry, if there is one.
  pub position_there :
      (k : K) (v : V) (i d : ℕ)
      → slot_at m.slots i ≡ entry k v d
      → position key_compare m.capacity m.slots
          (m.capacity - 1)
          (bit_and (hash k len) (m.capacity - 1))
          k
          0
        ≡ some i
  position_there k v i d e =
      ap (λ c. position key_compare m.capacity m.slots (c - 1) home k 0) (sym valid.width)
      ∙ ap (λ j. position key_compare m.capacity m.slots (length m.slots - 1) j k 0)
          (sym (
            along-zero (length m.slots) (omega (arith, home_lt k, valid.width)) home
              (omega (arith, home_lt k, valid.width))))
      ∙ position-stands (λ x. bit_and (hash x len) (m.capacity - 1)) key_compare valid.bits m.slots
          (valid.width ∙ valid.power) k sound (reflexive k) valid.arranged i v d e m.capacity 0
          (omega arith) (omega (arith, valid.width, valid.arranged.stands i k v d e))
    where
      home : ℕ
      home = bit_and (hash k len) (m.capacity - 1)

  pub position_missed :
      (k : K)
      → Missing m.slots k
      → position key_compare m.capacity m.slots
          (m.capacity - 1)
          (bit_and (hash k len) (m.capacity - 1))
          k
          0
        ≡ none
  position_missed k missing =
      ap
        (λ c.
          position key_compare m.capacity m.slots (c - 1) (bit_and (hash k len) (m.capacity - 1)) k
            0)
        (sym valid.width)
      ∙ position-Missing (λ x. bit_and (hash x len) (m.capacity - 1)) key_compare valid.bits m.slots
          (valid.width ∙ valid.power) k sound missing m.capacity _ 0

  -- `map_get` finds an entry, and nothing else.
  pub map_get-Contains :
      (k : K) (v : V)
      → Contains m.slots k v
      → map_get hash key_compare (some m) (some k) len ≡ some v
  unfolding map_get
  map_get-Contains k v (i, d, e) =
      get_loop-position key_compare (m.capacity - 1) m.slots k m.capacity _ 0
      ∙ ap (value_at m.slots) (position_there k v i d e)
      ∙ ap value_of e

  pub map_get-Missing :
      (k : K) → Missing m.slots k → map_get hash key_compare (some m) (some k) len ≡ none
  unfolding map_get
  map_get-Missing k missing =
      get_loop-position key_compare (m.capacity - 1) m.slots k m.capacity _ 0
      ∙ ap (value_at m.slots) (position_missed k missing)
