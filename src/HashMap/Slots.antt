-- ===== src/HashMap/Slots.antt =====
-- Reading and writing the slots of src/map.c, and how many are taken.
use solidc.Base.{
  ℕ, zero, suc, ◌+◌, ◌≤◌, ◌<◌, ◌≡◌, ◌≢◌, refl, ◌⊎◌, inl, inr, List, [], ◌∷◌, arith, length, set,
  replicate,
}
use solidc.HashMap.{Slot, empty, entry, slot_at}

module _ {ℓ} {K V : Type ℓ} where
  pub slot_at-set_same :
      (slots : List (Slot K V)) (i : ℕ) (s : Slot K V)
      → i < length slots
      → slot_at (set slots i s) i ≡ s
  slot_at-set_same [] i s h = absurd (omega arith)
  slot_at-set_same (x ∷ xs) zero s h = refl
  slot_at-set_same (x ∷ xs) (suc i) s h = slot_at-set_same xs i s (omega arith)

  pub slot_at-set_other :
      (slots : List (Slot K V)) (i j : ℕ) (s : Slot K V)
      → i ≢ j
      → slot_at (set slots i s) j ≡ slot_at slots j
  slot_at-set_other [] i j s h = refl
  slot_at-set_other (x ∷ xs) zero zero s h = absurd (h refl)
  slot_at-set_other (x ∷ xs) zero (suc j) s h = refl
  slot_at-set_other (x ∷ xs) (suc i) zero s h = refl
  slot_at-set_other (x ∷ xs) (suc i) (suc j) s h = slot_at-set_other xs i j s (omega arith)

  pub slot_at-outside :
      (slots : List (Slot K V)) (i : ℕ) → length slots ≤ i → slot_at slots i ≡ empty
  slot_at-outside [] i h = refl
  slot_at-outside (x ∷ xs) zero h = absurd (omega arith)
  slot_at-outside (x ∷ xs) (suc i) h = slot_at-outside xs i (omega arith)

  -- A slot is empty or taken.
  pub Slot-cases : (s : Slot K V) → (s ≡ empty) ⊎ ((k : K) × (v : V) × (d : ℕ) × (s ≡ entry k v d))
  Slot-cases empty = inl refl
  Slot-cases (entry k v d) = inr (k, v, d, refl)

  abbrev pub taken : Slot K V → ℕ
  taken empty = 0
  taken (entry k v d) = 1

  -- the number of entries
  abbrev pub occupied : List (Slot K V) → ℕ
  occupied [] = 0
  occupied (s ∷ slots) = taken s + occupied slots

  pub occupied-set :
      (slots : List (Slot K V)) (i : ℕ) (s : Slot K V)
      → i < length slots
      → occupied (set slots i s) + taken (slot_at slots i) ≡ occupied slots + taken s
  occupied-set [] i s h = absurd (omega arith)
  occupied-set (x ∷ xs) zero s h = omega arith
  occupied-set (x ∷ xs) (suc i) s h = omega (arith, occupied-set xs i s (omega arith))

  -- Where fewer slots are taken than there are, one is empty.
  pub empty_slot :
      (slots : List (Slot K V))
      → occupied slots < length slots
      → (i : ℕ) × (i < length slots) × (slot_at slots i ≡ empty)
  empty_slot [] h = absurd (omega arith)
  empty_slot (empty ∷ slots) h = (0, omega arith, refl)
  empty_slot (entry k v d ∷ slots) h =
      let (i, inside, e) = empty_slot slots (omega arith) in (suc i, omega arith, e)

  pub entry_inj :
      {k k' : K} {v v' : V} {d d' : ℕ}
      → entry k v d ≡ entry k' v' d'
      → (k ≡ k') × (v ≡ v') × (d ≡ d')
  entry_inj e = (cc, cc, cc)

-- a table with no entries
pub slot_at-replicate {ℓ} :
    (K V : Type ℓ) (n i : ℕ) → slot_at {K = K} {V = V} (replicate n empty) i ≡ empty
slot_at-replicate K V zero i = refl
slot_at-replicate K V (suc n) zero = refl
slot_at-replicate K V (suc n) (suc i) = slot_at-replicate K V n i

pub occupied-replicate {ℓ} :
    (K V : Type ℓ) (n : ℕ) → occupied {K = K} {V = V} (replicate n empty) ≡ 0
occupied-replicate K V zero = refl
occupied-replicate K V (suc n) = omega (arith, occupied-replicate K V n)
