-- ===== src/HashMap/Loop.antt =====
-- The loop of map_set and of map_resize in src/map.c, run to its end.
use Prim.Native.Nat.{bit_and}
use solidc.Base.{
  ℕ, zero, suc, ◌+◌, ◌-◌, ◌%◌, ◌^◌, ◌≤◌, ◌<◌, ◌≡◌, refl, sym, ap, ◌∙◌, inl, inr, Bool, true, false,
  List, arith, ltb, length, set, length-set, Bool-cases, ltb→lt, ltb→ge,
}
use solidc.HashMap.{Slot, empty, entry, slot_at, placed, updated, store}
use solidc.HashMap.Insert.{written}
use solidc.HashMap.Slots.{Slot-cases}
use solidc.HashMap.Probe.{masked}
use solidc.HashMap.Store.{
  free_later, Added, OnWay, after, place-Added, pass-OnWay, rob-OnWay, rob-Added,
}

-- One round of the loop, by what the slot holds.
module _ {ℓ} {K V : Type ℓ} (matches : K → K → Bool) (fuel mask : ℕ) (slots : List (Slot K V))
    (idx : ℕ) (k : K) (v : V) (d : ℕ) where
  store-empty :
      slot_at slots idx ≡ empty
      → store matches (suc fuel) slots mask idx k v d ≡ placed (set slots idx (entry k v d))
  unfolding store
  store-empty e = rw (store, e) refl

  module _ (k' : K) (v' : V) (d' : ℕ) (e : slot_at slots idx ≡ entry k' v' d') where
    pub store-match :
        matches k' k ≡ true
        → store matches (suc fuel) slots mask idx k v d ≡ updated (set slots idx (entry k' v d')) v'
    unfolding store
    store-match same = rw (store, e, same) refl

    pub store-rob :
        matches k' k ≡ false
        → ltb d' d ≡ true
        → store matches (suc fuel) slots mask idx k v d
          ≡ store matches fuel
              (set slots idx (entry k v d))
              mask
              (bit_and (idx + 1) mask)
              k'
              v'
              (d' + 1)
    unfolding store
    store-rob other richer = rw (store, e, other, richer) refl

    pub store-pass :
        matches k' k ≡ false
        → ltb d' d ≡ false
        → store matches (suc fuel) slots mask idx k v d
          ≡ store matches fuel slots mask (bit_and (idx + 1) mask) k v (d + 1)
    unfolding store
    store-pass other poorer = rw (store, e, other, poorer) refl

module _ {ℓ} {K V : Type ℓ} (home : K → ℕ) (matches : K → K → Bool)
    (sound : (a b : K) → matches a b ≡ true → a ≡ b) (bits cap : ℕ) (power : cap ≡ 2 ^ bits) where
  -- For a key that the table does not have, and with an empty slot ahead, the loop places it.
  pub store-Added :
      (fuel : ℕ) (slots : List (Slot K V)) (idx : ℕ) (k : K) (v : V) (d t : ℕ)
      → OnWay home slots idx k d t
      → length slots ≡ cap
      → d + fuel ≤ cap
      → t < fuel
      → (slots' : List (Slot K V)) × (store matches fuel slots (cap - 1) idx k v d ≡ placed slots')
        × Added home slots k v slots'
  store-Added zero slots idx k v d t o w h lt = absurd (omega arith)
  store-Added (suc fuel) slots idx k v d t o w h lt = elim (Slot-cases (slot_at slots idx)) [
    | inl e ↦ (
      _,
      store-empty matches fuel (cap - 1) slots idx k v d e,
      place-Added home slots idx k v d t o (omega arith) e,
    )
    | inr (k', v', d', e) ↦
        let step : bit_and (idx + 1) (cap - 1) ≡ after slots idx =
          masked bits (idx + 1) cap power ∙ ap (λ n. (idx + 1) % n) (sym w) in
        let other : matches k' k ≡ false = elim (Bool-cases (matches k' k)) [
          | inl same ↦ absurd (o.missing idx v' d' (e ∙ ap (λ y. entry y v' d') (sound k' k same)))
          | inr differs ↦ differs
        ] in
        elim (Bool-cases (ltb d' d)) [
          | inl richer ↦
              let low = ltb→lt d' d richer in
              let (slots', run, a) =
                store-Added fuel (written slots idx k v d o.inside)
                  (after (written slots idx k v d o.inside) idx) k' v' (d' + 1) (t - 1)
                  (rob-OnWay home slots idx k v d t o k' v' d' e low (omega arith))
                  (length-set slots idx (entry k v d) ∙ w) (omega arith)
                  (omega (arith, free_later home slots idx k v d t o k' v' d' e)) in
              (
                slots',
                store-rob matches fuel (cap - 1) slots idx k v d k' v' d' e other richer
                    ∙ ap
                        (λ i.
                          store matches fuel (written slots idx k v d o.inside) (cap - 1) i k' v'
                            (d' + 1))
                        (step ∙ ap (λ n. (idx + 1) % n) (sym (length-set slots idx (entry k v d))))
                    ∙ run,
                rob-Added home slots idx k v d t o k' v' d' e low (omega arith) slots' a,
              )
          | inr poorer ↦
              let (slots', run, a) =
                store-Added fuel slots (after slots idx) k v (d + 1) (t - 1)
                  (pass-OnWay home slots idx k v d t o k' v' d' e (ltb→ge d' d poorer)) w
                  (omega arith) (omega (arith, free_later home slots idx k v d t o k' v' d' e)) in
              (
                slots',
                store-pass matches fuel (cap - 1) slots idx k v d k' v' d' e other poorer
                    ∙ ap (λ i. store matches fuel slots (cap - 1) i k v (d + 1)) step
                    ∙ run,
                a,
              )
        ]
  ]
