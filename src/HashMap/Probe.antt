-- ===== src/HashMap/Probe.antt =====
-- The circular order of the slots of src/map.c, and what makes a table well-formed.
use native.Mathlib.Nat.{mod-lt, mod-add-mod, add-mod_right, mod-eq_of_lt}
use Prim.Native.Nat.{bit_and}
use solidc.Base.{
  ℕ, suc, ◌+◌, ◌-◌, ◌%◌, ◌^◌, ◌≤◌, ◌<◌, ◌≡◌, ◌≢◌, sym, ap, ◌∙◌, inl, inr, List, arith, leb, length,
  Bool-cases, leb→le, leb→gt,
}
use solidc.Base.Bits.{bit_and_mask}
use solidc.HashMap.{Slot, entry, slot_at}

-- The slot `e` steps after `i`, among `cap` of them.
abbrev pub along : ℕ → ℕ → ℕ → ℕ
along cap i e = (i + e) % cap

module _ (cap : ℕ) (pos : 0 < cap) where
  pub along-lt : (i e : ℕ) → along cap i e < cap
  along-lt i e = mod-lt (i + e) pos

  pub along-zero : (i : ℕ) → i < cap → along cap i 0 ≡ i
  along-zero i h = ap (λ t. t % cap) (omega arith) ∙ mod-eq_of_lt h

  pub along-suc : (i e : ℕ) → (along cap i e + 1) % cap ≡ along cap i (e + 1)
  along-suc i e = mod-add-mod (i + e) cap 1 ∙ ap (λ t. t % cap) (omega arith)

  pub along-step : (i t : ℕ) → along cap ((i + 1) % cap) t ≡ along cap i (suc t)
  along-step i t = mod-add-mod (i + 1) cap t ∙ ap (λ n. n % cap) (omega arith)

  -- Every slot is reached.
  pub along-reaches : (i p : ℕ) → i < cap → p < cap → (t : ℕ) × (t < cap) × (along cap i t ≡ p)
  along-reaches i p h k = elim (Bool-cases (leb i p)) [
    | inl ahead ↦
        (p - i, omega arith, ap (λ n. n % cap) (omega (arith, leb→le i p ahead)) ∙ mod-eq_of_lt k)
    | inr behind ↦ (
      p + cap - i,
      omega (arith, leb→gt i p behind),
      ap (λ n. n % cap) (omega arith) ∙ add-mod_right p cap ∙ mod-eq_of_lt k,
    )
  ]

pub masked : (k x : ℕ) (cap : ℕ) → cap ≡ 2 ^ k → bit_and x (cap - 1) ≡ x % cap
masked k x cap e = ap (λ c. bit_and x (c - 1)) e ∙ bit_and_mask k x ∙ ap (λ c. x % c) (sym e)

module _ {ℓ} {K V : Type ℓ} where
  -- The slot is taken by an entry at least `e` steps from its home.
  abbrev pub AtLeast : List (Slot K V) → ℕ → ℕ → Type ℓ
  AtLeast slots i e = (k : K) × (v : V) × (d : ℕ) × (slot_at slots i ≡ entry k v d) × (e ≤ d)

  -- An entry that starts at `home` and has gone `d` steps passed no emptier or richer slot.
  abbrev pub Passed : List (Slot K V) → ℕ → ℕ → Type ℓ
  Passed slots home d = (e : ℕ) → e < d → AtLeast slots (along (length slots) home e) e

  abbrev pub Contains : List (Slot K V) → K → V → Type ℓ
  Contains slots k v = (i : ℕ) × (d : ℕ) × (slot_at slots i ≡ entry k v d)

  abbrev pub Missing : List (Slot K V) → K → Type ℓ
  Missing slots k = (i : ℕ) (v : V) (d : ℕ) → slot_at slots i ≢ entry k v d

-- Every entry stands as many steps from its home as it says, fewer than there are slots, has passed
-- all slots between, and is the one with its key.
pub record Arranged {ℓ} {K V : Type ℓ} (home : K → ℕ) (slots : List (Slot K V)) : Type ℓ where
  pub stands :
      (i : ℕ) (k : K) (v : V) (d : ℕ)
      → slot_at slots i ≡ entry k v d
      → (i ≡ along (length slots) (home k) d) × (d < length slots)
  pub passed :
      (i : ℕ) (k : K) (v : V) (d : ℕ) → slot_at slots i ≡ entry k v d → Passed slots (home k) d
  pub single :
      (i j : ℕ) (k : K) (v w : V) (d e : ℕ)
      → slot_at slots i ≡ entry k v d
      → slot_at slots j ≡ entry k w e
      → i ≡ j
