-- ===== src/HashMap/Grow.antt =====
-- map_resize of src/map.c, and the growth at the start of map_set.
use Prim.Native.Nat.{bit_and}
use native.Mathlib.Nat.{mod-lt, one-le-pow}
use solidc.Base.{
  ℕ, zero, suc, ◌+◌, ◌-◌, ◌^◌, ◌≤◌, ◌<◌, ◌≡◌, refl, ap, ◌∙◌, inl, inr, false, List, [], ◌∷◌, arith,
  length,
}
use solidc.HashMap.{Slot, empty, entry, slot_at, placed, store, rehash}
use solidc.HashMap.Slots.{occupied}
use solidc.HashMap.Probe.{masked, Contains, Arranged}
use solidc.HashMap.Loop.{store-Added}
use solidc.HashMap.Table.{setting_out}
use solidc.HashMap.Resize.{Single, Apart, Single-tail, Apart-cons, Joined, Joined-cons}

pub occupied-le-length {ℓ} :
    {K V : Type ℓ} (slots : List (Slot K V)) → occupied slots ≤ length slots
occupied-le-length [] = omega arith
occupied-le-length (empty ∷ slots) = omega (arith, occupied-le-length slots)
occupied-le-length (entry k v d ∷ slots) = omega (arith, occupied-le-length slots)

rehash-entry {ℓ} :
    {K V : Type ℓ} (hash : K → ℕ → ℕ) (cap len : ℕ) (k : K) (v : V) (d : ℕ)
    (old slots between : List (Slot K V)) (size : ℕ)
    → store (λ x y. false) cap slots (cap - 1) (bit_and (hash k len) (cap - 1)) k v 0
      ≡ placed between
    → rehash hash cap len (entry k v d ∷ old) slots size
      ≡ rehash hash cap len old between (size + 1)
unfolding rehash
rehash-entry hash cap len k v d old slots between size e = rw (rehash, e) refl

module _ {ℓ} {K : Type ℓ} (hash : K → ℕ → ℕ) (len bits cap : ℕ) (power : cap ≡ 2 ^ bits) where
  abbrev pub home_in : K → ℕ
  home_in k = bit_and (hash k len) (cap - 1)

  cap_pos : 0 < cap
  cap_pos = omega (arith, power, one-le-pow bits 2 (omega arith))

  pub home_in-lt : (k : K) → bit_and (hash k len) (cap - 1) < cap
  home_in-lt k = rw (masked bits (hash k len) cap power) (mod-lt (hash k len) cap_pos)

module _ {ℓ} {K V : Type ℓ} (hash : K → ℕ → ℕ) (len bits cap : ℕ) (power : cap ≡ 2 ^ bits) where
  -- The loop over the old slots adds every entry, where the new table has room for all.
  pub rehash_lem :
      (old slots : List (Slot K V)) (size : ℕ)
      → Single old
      → Apart old slots
      → Arranged (home_in hash len bits cap power) slots
      → length slots ≡ cap
      → occupied slots + occupied old < cap
      → (slots' : List (Slot K V)) × (rehash hash cap len old slots size
          ≡ (slots', size + occupied old))
        × Joined (home_in hash len bits cap power) slots old slots'
  unfolding rehash
  rehash_lem [] slots size single apart arranged width room = (
    slots,
    ap (λ n. (slots, n)) (omega arith),
    record {
      arranged = arranged;
      width = refl;
      count = omega arith;
      keeps = λ x w c. c;
      joins = λ x w (i, d, c). absurd (cc c);
      only = λ x w c. inl c;
    },
  )
  rehash_lem (empty ∷ old) slots size single apart arranged width room =
      let (slots', run, j) =
        rehash_lem old slots size (Single-tail empty old single) (λ i. apart (suc i)) arranged width
          (omega arith) in
      (
        slots',
        run ∙ ap (λ n. (slots', n)) (omega arith),
        record {
          arranged = j.arranged;
          width = j.width;
          count = omega (arith, j.count);
          keeps = j.keeps;
          joins = λ x w (i, d, c). j.joins x w (below old x w i d c);
          only = λ x w c. elim (j.only x w c) [
            | inl older ↦ inl older
            | inr (i, d, there) ↦ inr (suc i, d, there)
          ];
        },
      )
    where
      below :
          (old : List (Slot K V)) (x : K) (w : V) (i d : ℕ)
          → slot_at (empty ∷ old) i ≡ entry x w d
          → Contains old x w
      below old x w zero d c = absurd (cc c)
      below old x w (suc i) d c = (i, d, c)
  rehash_lem (entry k v d ∷ old) slots size single apart arranged width room =
      let missing = apart zero k v d refl in
      let (t, lt, o) =
        setting_out (home_in hash len bits cap power) slots k arranged
          (omega (arith, home_in-lt hash len bits cap power k)) (omega arith) missing in
      let (between, placing, a) =
        store-Added (home_in hash len bits cap power) (λ x y. false) (λ x y h. absurd (cc h)) bits
          cap power cap slots ((home_in hash len bits cap power) k) k v 0 t o width (omega arith)
          (omega arith) in
      let (slots', run, j) =
        rehash_lem old between (size + 1) (Single-tail (entry k v d) old single)
          (Apart-cons (home_in hash len bits cap power) k v d old slots between between single apart
            a)
          a.arranged (a.width ∙ width) (omega (arith, a.count)) in
      (
        slots',
        rehash-entry hash cap len k v d old slots between size placing
            ∙ (run ∙ ap (λ n. (slots', n)) (omega arith)),
        Joined-cons (home_in hash len bits cap power) k v d old slots between slots' a j,
      )
