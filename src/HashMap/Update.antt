-- ===== src/HashMap/Update.antt =====
-- The loop of map_set in src/map.c, for a key that the table has.
use solidc.Base.{
  ℕ, zero, suc, ◌+◌, ◌-◌, ◌^◌, ◌≤◌, ◌<◌, ◌≡◌, ◌≢◌, sym, ap, ◌∙◌, inl, inr, Bool, true, List, arith,
  length, leb, set, length-set, Bool-cases, ge→ltb, leb→gt,
}
use solidc.HashMap.{Slot, empty, entry, slot_at, updated, store}
use solidc.HashMap.Slots.{
  slot_at-set_same, slot_at-set_other, slot_at-outside, entry_inj, occupied, taken, occupied-set,
}
use solidc.HashMap.Probe.{along, along-suc, masked, Contains, Arranged}
use solidc.HashMap.Insert.{index_cases, written, reads, AtLeast-written}
use solidc.HashMap.Loop.{store-match, store-pass}

module _ {ℓ} {K V : Type ℓ} (home : K → ℕ) (slots : List (Slot K V)) (k : K)
    (arranged : Arranged home slots) (i : ℕ) (w : V) (d : ℕ)
    (e : slot_at slots i ≡ entry k w d) where
  pub taken-inside : i < length slots
  taken-inside = elim (Bool-cases (leb (length slots) i)) [
    | inl outside ↦ absurd (entry_ne (sym e ∙ slot_at-outside slots i (ground arith)))
    | inr within ↦ leb→gt (length slots) i within
  ]
    where
      entry_ne : entry k w d ≢ empty
      entry_ne h = cc

  -- From any step on the way to the entry, the loop gets there and writes the value.
  pub store-stands :
      (matches : K → K → Bool)
      → ((a b : K) → matches a b ≡ true → a ≡ b)
      → matches k k ≡ true
      → (bits : ℕ) → length slots ≡ 2 ^ bits
      → (v : V) (fuel dist : ℕ) → dist ≤ d
      → d < fuel + dist
      → store matches fuel slots (length slots - 1) (along (length slots) (home k) dist) k v dist
        ≡ updated (set slots i (entry k v d)) w
  store-stands matches sound same bits power v zero dist le lt = absurd (omega arith)
  store-stands matches sound same bits power v (suc fuel) dist le lt =
      let idx = along (length slots) (home k) dist in
      elim (index_cases dist d) [
        | inl last ↦
            let reached : idx ≡ i =
              ap (along (length slots) (home k)) last ∙ sym (arranged.stands i k w d e).0 in
            store-match matches fuel (length slots - 1) slots idx k v dist k w d
              (ap (slot_at slots) reached ∙ e) same
            ∙ ap (λ j. updated (set slots j (entry k v d)) w) reached
        | inr before ↦
            let (k', v', d', e', le') = arranged.passed i k w d e dist (omega arith) in
            elim (Bool-cases (matches k' k)) [
              | inl equal ↦
                  let e'' = e' ∙ ap (λ y. entry y v' d') (sound k' k equal) in
                  let reached = arranged.single idx i k v' w d' d e'' e in
                  let both = entry_inj (sym e'' ∙ ap (slot_at slots) reached ∙ e) in
                  store-match matches fuel (length slots - 1) slots idx k v dist k' v' d' e' equal
                  ∙ ap (λ y. updated (set slots idx (entry y v d')) v') (sound k' k equal)
                  ∙ ap (λ j. updated (set slots j (entry k v d')) v') reached
                  ∙ ap (λ f. updated (set slots i (entry k v f)) v') both.2
                  ∙ ap (λ u. updated (set slots i (entry k v d)) u) both.1
              | inr other ↦
                  store-pass matches fuel (length slots - 1) slots idx k v dist k' v' d' e' other
                    (ge→ltb d' dist le')
                  ∙ ap (λ j. store matches fuel slots (length slots - 1) j k v (dist + 1))
                      (masked bits (idx + 1) (length slots) power
                        ∙ along-suc (length slots) (omega (arith, taken-inside)) (home k) dist)
                  ∙ store-stands matches sound same bits power v fuel (dist + 1) (omega arith)
                      (omega arith)
            ]
      ]

  module _ (v : V) where
    abbrev revalued : List (Slot K V)
    revalued = written slots i k v d taken-inside

    back :
        (j : ℕ) (x : K) (u : V) (f : ℕ)
        → slot_at revalued j ≡ entry x u f
        → (u' : V) × (slot_at slots j ≡ entry x u' f)
    back j x u f c = elim (reads slots i k v d taken-inside j x u f c) [
      | inl (same, kx, _, df) ↦
          (w, ap (slot_at slots) (sym same) ∙ e ∙ ap (λ y. entry y w d) kx ∙ ap (entry x w) df)
      | inr (_, old) ↦ (u, old)
    ]

    width : length revalued ≡ length slots
    width = length-set slots i (entry k v d)

    pub revalued-Arranged : Arranged home (set slots i (entry k v d))
    revalued-Arranged = record {
      stands = λ j x u f c.
          let s = arranged.stands j x (back j x u f c).0 f (back j x u f c).1 in
          (s.0 ∙ ap (λ n. along n (home x) f) (sym width), omega (arith, s.1, width));
      passed = λ j x u f c g lt.
          AtLeast-written slots i k v d taken-inside
            (λ h a. let both = entry_inj (sym e ∙ a.3) in omega (arith, both.2, a.4))
            (along (length revalued) (home x) g) g
            (rw width (arranged.passed j x (back j x u f c).0 f (back j x u f c).1 g lt));
      single = λ j j' x u u' f f' c c'.
          arranged.single j j' x (back j x u f c).0 (back j' x u' f' c').0 f f' (back j x u f c).1
            (back j' x u' f' c').1;
    }

    pub revalued-occupied : occupied (set slots i (entry k v d)) ≡ occupied slots
    revalued-occupied = omega (arith, occupied-set slots i (entry k v d) taken-inside, ap taken e)

    pub revalued-adds : Contains (set slots i (entry k v d)) k v
    revalued-adds = (i, d, slot_at-set_same slots i (entry k v d) taken-inside)

    pub revalued-keeps :
        (x : K) (u : V) → k ≢ x → Contains slots x u → Contains (set slots i (entry k v d)) x u
    revalued-keeps x u ne (j, f, c) = elim (index_cases i j) [
      | inl same ↦ absurd (ne (entry_inj (sym e ∙ ap (slot_at slots) same ∙ c)).0)
      | inr other ↦ (j, f, slot_at-set_other slots i j (entry k v d) other ∙ c)
    ]

    pub revalued-only :
        (x : K) (u : V) → k ≢ x → Contains (set slots i (entry k v d)) x u → Contains slots x u
    revalued-only x u ne (j, f, c) = elim (reads slots i k v d taken-inside j x u f c) [
      | inl (_, kx, _, _) ↦ absurd (ne kx)
      | inr (_, old) ↦ (j, f, old)
    ]
