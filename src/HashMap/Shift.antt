-- ===== src/HashMap/Shift.antt =====
-- One step of the backward shift of map_remove in src/map.c, and its end.
use solidc.Base.{
  ℕ, suc, ◌+◌, ◌<◌, ◌≡◌, ◌≢◌, sym, ap, ◌∙◌, inl, inr, List, arith, length, set, length-set,
}
use solidc.HashMap.{Slot, empty, entry, slot_at}
use solidc.HashMap.Slots.{slot_at-set_same, slot_at-set_other, occupied, taken, occupied-set}
use solidc.HashMap.Probe.{along, AtLeast, Contains, Arranged}
use solidc.HashMap.Insert.{index_cases}
use solidc.HashMap.Store.{after}
use solidc.HashMap.Hole.{Holed, Outside, passed_hole}

-- `slots'` is arranged and has the entries of `slots` but for the hole.
pub record Closed {ℓ} {K V : Type ℓ} (home : K → ℕ) (slots : List (Slot K V)) (hole : ℕ)
    (slots' : List (Slot K V)) : Type ℓ where
  pub arranged : Arranged home slots'
  pub width : length slots' ≡ length slots
  pub count : occupied slots' + 1 ≡ occupied slots
  pub keeps : (x : K) (w : V) → Outside slots hole x w → Contains slots' x w
  pub only : (x : K) (w : V) → Contains slots' x w → Outside slots hole x w

module _ {ℓ} {K V : Type ℓ} (home : K → ℕ) (slots : List (Slot K V)) (hole : ℕ)
    (h : Holed home slots hole) where
  pub copy_taken : taken (slot_at slots hole) ≡ 1
  copy_taken = ap taken h.copy.3

  -- The next slot is empty, or its entry is at home: the hole can be emptied.
  module _ (stop : (e : ℕ) → AtLeast slots (after slots hole) (suc e) → ⊥) where
    abbrev emptied : List (Slot K V)
    emptied = set slots hole empty

    emptied_back :
        (i : ℕ) (k : K) (v : V) (d : ℕ)
        → slot_at emptied i ≡ entry k v d
        → (hole ≢ i) × (slot_at slots i ≡ entry k v d)
    emptied_back i k v d c = elim (index_cases hole i) [
      | inl same ↦
          let clash =
            sym (slot_at-set_same slots hole empty h.inside) ∙ ap (slot_at emptied) same ∙ c in
          absurd (cc clash)
      | inr other ↦ (other, sym (slot_at-set_other slots hole i empty other) ∙ c)
    ]

    never_passed :
        (i : ℕ) (k : K) (v : V) (d e : ℕ)
        → hole ≢ i
        → slot_at slots i ≡ entry k v d
        → e < d
        → hole ≢ along (length slots) (home k) e
    never_passed i k v d e ne c lt at = elim (passed_hole home slots hole h i k v d e ne c lt at) [
      | inr beyond ↦ stop e beyond
      | inl (last, there) ↦
          stop e (k, v, d, ap (slot_at slots) (sym there) ∙ c, omega (arith, last))
    ]

    width : length emptied ≡ length slots
    width = length-set slots hole empty

    pub emptied-Closed : Closed home slots hole emptied
    emptied-Closed = record {
      arranged = record {
        stands = λ i k v d c.
            let (ne, old) = emptied_back i k v d c in
            let s = h.stands i k v d ne old in
            (s.0 ∙ ap (λ n. along n (home k) d) (sym width), omega (arith, s.1, width));
        passed = λ i k v d c e lt.
            let (ne, old) = emptied_back i k v d c in
            let apart = never_passed i k v d e ne old lt in
            let a = h.passed i k v d ne old e lt apart in
            rw width (
              a.0,
              a.1,
              a.2,
              slot_at-set_other slots hole (along (length slots) (home k) e) empty apart ∙ a.3,
              a.4,
            );
        single = λ i j k v w d e c c'.
            let (ne, old) = emptied_back i k v d c in
            let (ne', old') = emptied_back j k w e c' in h.single i j k v w d e ne ne' old old';
      };
      width = width;
      count = omega (arith, occupied-set slots hole empty h.inside, copy_taken);
      keeps = λ x w (i, d, ne, c). (i, d, slot_at-set_other slots hole i empty ne ∙ c);
      only = λ x w (i, d, c). let (ne, old) = emptied_back i x w d c in (i, d, ne, old);
    }
