-- ===== src/HashMap/Move.antt =====
-- One round of the backward shift of map_remove in src/map.c.
use mathlib.Core.Path.{subst}
use solidc.Base.{
  ℕ, suc, ◌≤◌, ◌<◌, ◌≡◌, ◌≢◌, sym, ap, ◌∙◌, ◌⊎◌, inl, inr, List, arith, length, length-set,
}
use solidc.HashMap.{Slot, entry, slot_at}
use solidc.HashMap.Slots.{slot_at-set_same, slot_at-set_other, entry_inj}
use solidc.HashMap.Probe.{along, along-lt, along-suc, AtLeast}
use solidc.HashMap.Insert.{index_cases, written, reads}
use solidc.HashMap.Store.{after}
use solidc.HashMap.Hole.{Holed, after_inj, after_hole, passed_hole}

-- The entry of the next slot, `g + 1` steps from home, moves into the hole.
module _ {ℓ} {K V : Type ℓ} (home : K → ℕ) (slots : List (Slot K V)) (hole : ℕ)
    (h : Holed home slots hole) (y : K) (u : V) (g : ℕ)
    (there : slot_at slots (after slots hole) ≡ entry y u (suc g)) where
  abbrev pub moved : List (Slot K V)
  moved = written slots hole y u g h.inside

  pub moved_width : length moved ≡ length slots
  moved_width = length-set slots hole (entry y u g)

  pub next_ne : hole ≢ after slots hole
  next_ne = after_hole home slots hole h

  -- The hole is one step nearer to the home of the entry.
  stands_here : (hole ≡ along (length slots) (home y) g) × (g < length slots)
  stands_here =
      let s = h.stands (after slots hole) y u (suc g) next_ne there in
      (
        after_inj (length slots) hole (along (length slots) (home y) g) h.inside
            (along-lt (length slots) (omega (arith, h.inside)) (home y) g)
            (s.0
              ∙ ap (along (length slots) (home y)) (omega arith)
              ∙ sym (along-suc (length slots) (omega (arith, h.inside)) (home y) g)),
        omega (arith, s.1),
      )

  -- What an entry of the new table was, unless it is the next slot's, which is the new hole.
  pub back :
      (i : ℕ) (x : K) (w : V) (f : ℕ)
      → after slots hole ≢ i
      → slot_at moved i ≡ entry x w f
      → ((hole ≡ i) × (y ≡ x) × (u ≡ w) × (g ≡ f)) ⊎ ((hole ≢ i) × (slot_at slots i ≡ entry x w f))
  back i x w f ne c = reads slots hole y u g h.inside i x w f c

  AtLeast-moved :
      (p e : ℕ) → (hole ≡ p → e ≤ g) → (hole ≢ p → AtLeast slots p e) → AtLeast moved p e
  AtLeast-moved p e here other = elim (index_cases hole p) [
    | inl same ↦ (
      y,
      u,
      g,
      ap (slot_at moved) (sym same) ∙ slot_at-set_same slots hole (entry y u g) h.inside,
      here same,
    )
    | inr apart ↦
        let a = other apart in
        (a.0, a.1, a.2, slot_at-set_other slots hole p (entry y u g) apart ∙ a.3, a.4)
  ]

  -- An entry that passed the hole leaves room for the moved one.
  room_here :
      (i : ℕ) (x : K) (w : V) (f e : ℕ)
      → hole ≢ i
      → after slots hole ≢ i
      → slot_at slots i ≡ entry x w f
      → e < f
      → hole ≡ along (length slots) (home x) e
      → e ≤ g
  room_here i x w f e ne ne' c lt at = elim (passed_hole home slots hole h i x w f e ne c lt at) [
    | inl (_, next) ↦ absurd (ne' (sym next))
    | inr a ↦ let both = entry_inj (sym there ∙ a.3) in omega (arith, both.2, a.4)
  ]

  pub moved_stands :
      (i : ℕ) (x : K) (w : V) (f : ℕ)
      → after slots hole ≢ i
      → slot_at moved i ≡ entry x w f
      → (i ≡ along (length slots) (home x) f) × (f < length slots)
  moved_stands i x w f ne c = elim (back i x w f ne c) [
    | inl (same, yx, _, gf) ↦ (
      sym same
          ∙ stands_here.0
          ∙ ap (λ k. along (length slots) (home k) g) yx
          ∙ ap (along (length slots) (home x)) gf,
      omega (arith, stands_here.1),
    )
    | inr (other, old) ↦ h.stands i x w f other old
  ]

  pub moved_passed :
      (i : ℕ) (x : K) (w : V) (f : ℕ)
      → after slots hole ≢ i
      → slot_at moved i ≡ entry x w f
      → (e : ℕ) → e < f
      → after slots hole ≢ along (length slots) (home x) e
      → AtLeast moved (along (length slots) (home x) e) e
  moved_passed i x w f ne c e lt apart = elim (back i x w f ne c) [
    | inl (same, yx, _, gf) ↦
        AtLeast-moved (along (length slots) (home x) e) e (λ at. omega arith)
          (λ at.
            subst (λ k. AtLeast slots (along (length slots) (home k) e) e) yx
              (h.passed (after slots hole) y u (suc g) next_ne there e (omega arith)
                (λ same. at (same ∙ ap (λ k. along (length slots) (home k) e) yx))))
    | inr (other, old) ↦
        AtLeast-moved (along (length slots) (home x) e) e
          (λ at. room_here i x w f e other ne old lt at) (λ at. h.passed i x w f other old e lt at)
  ]

  pub moved_single :
      (i j : ℕ) (x : K) (w w' : V) (f f' : ℕ)
      → after slots hole ≢ i
      → after slots hole ≢ j
      → slot_at moved i ≡ entry x w f
      → slot_at moved j ≡ entry x w' f'
      → i ≡ j
  moved_single i j x w w' f f' ne ne' c c' = elim (back i x w f ne c) [
    | inl (same, yx, _, _) ↦ elim (back j x w' f' ne' c') [
      | inl (same', _, _, _) ↦ sym same ∙ same'
      | inr (other', old') ↦ absurd (ne' (only_next j w' f' yx other' old'))
    ]
    | inr (other, old) ↦ elim (back j x w' f' ne' c') [
      | inl (_, yx, _, _) ↦ absurd (ne (only_next i w f yx other old))
      | inr (other', old') ↦ h.single i j x w w' f f' other other' old old'
    ]
  ]
    where
      only_next :
          (j : ℕ) (w : V) (f : ℕ)
          → y ≡ x
          → hole ≢ j
          → slot_at slots j ≡ entry x w f
          → after slots hole ≡ j
      only_next j w f yx apart c =
          h.single (after slots hole) j y u w (suc g) f next_ne apart there
            (c ∙ ap (λ k. entry k w f) (sym yx))
