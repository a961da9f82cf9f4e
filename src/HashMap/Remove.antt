-- ===== src/HashMap/Remove.antt =====
-- The backward shift of map_remove in src/map.c, run to its end.
use Prim.Native.Nat.{bit_and}
use solidc.Base.{
  ℕ, zero, suc, ◌+◌, ◌-◌, ◌%◌, ◌^◌, ◌<◌, ◌≡◌, ◌≢◌, refl, sym, ap, ◌∙◌, inl, inr, some, List, arith,
  length, set, ne→==,
}
use solidc.HashMap.{Slot, empty, entry, slot_at, shift_back}
use solidc.HashMap.Slots.{Slot-cases, slot_at-set_same, slot_at-set_other, entry_inj, occupied-set}
use solidc.HashMap.Probe.{along, along-lt, along-zero, along-step, masked}
use solidc.HashMap.Insert.{index_cases}
use solidc.HashMap.Store.{after}
use solidc.HashMap.Hole.{Holed}
use solidc.HashMap.Shift.{Closed, copy_taken, emptied-Closed}
use solidc.HashMap.Move.{
  moved, moved_width, next_ne, back, moved_stands, moved_passed, moved_single,
}

module _ {ℓ} {K V : Type ℓ} (home : K → ℕ) (slots : List (Slot K V)) (hole : ℕ)
    (h : Holed home slots hole) (y : K) (u : V) (g : ℕ)
    (there : slot_at slots (after slots hole) ≡ entry y u (suc g)) where
  abbrev table : List (Slot K V)
  table = moved home slots hole h y u g there

  same_width : length table ≡ length slots
  same_width = moved_width home slots hole h y u g there

  stays : slot_at table (after slots hole) ≡ entry y u (suc g)
  stays =
      slot_at-set_other slots hole (after slots hole) (entry y u g)
        (next_ne home slots hole h y u g there)
      ∙ there

  moved-Holed : Holed home table (after slots hole)
  moved-Holed = record {
    several = omega (arith, same_width, h.several);
    inside = rw same_width (along-lt (length slots) (omega (arith, h.inside)) hole 1);
    copy = (y, u, suc g, stays);
    stands =
        λ i x w f ne c. rw same_width (moved_stands home slots hole h y u g there i x w f ne c);
    passed = λ i x w f ne c e lt.
        rw same_width (moved_passed home slots hole h y u g there i x w f ne c e lt);
    single = moved_single home slots hole h y u g there;
  }

  moved-Closed :
      (slots' : List (Slot K V))
      → Closed home table (after slots hole) slots'
      → Closed home slots hole slots'
  moved-Closed slots' c = record {
    arranged = c.arranged;
    width = c.width ∙ same_width;
    count = omega (
      arith,
      c.count,
      occupied-set slots hole (entry y u g) h.inside,
      copy_taken home slots hole h,
    );
    keeps = λ x w (i, d, ne, e). elim (index_cases (after slots hole) i) [
      | inl same ↦
          let both = entry_inj (sym there ∙ ap (slot_at slots) same ∙ e) in
          c.keeps x w (
            hole,
            g,
            (λ at. next_ne home slots hole h y u g there (sym at)),
            slot_at-set_same slots hole (entry y u g) h.inside
                ∙ ap (λ k. entry k u g) both.0
                ∙ ap (λ v. entry x v g) both.1,
          )
      | inr apart ↦ c.keeps x w (i, d, apart, slot_at-set_other slots hole i (entry y u g) ne ∙ e)
    ];
    only = λ x w there'.
        let (i, d, ne, e) = c.only x w there' in
        elim (back home slots hole h y u g there i x w d ne e) [
          | inl (_, yx, uw, _) ↦ (
            after slots hole,
            suc g,
            next_ne home slots hole h y u g there,
            there ∙ ap (λ k. entry k u (suc g)) yx ∙ ap (λ v. entry x v (suc g)) uw,
          )
          | inr (other, old) ↦ (i, d, other, old)
        ];
  }

  -- The empty slot ahead is not the hole, and is nearer to the next one.
  module _ (t : ℕ) (free : slot_at slots (along (length slots) hole t) ≡ empty) where
    not_here : hole ≢ along (length slots) hole t
    not_here at = let clash = sym h.copy.3 ∙ ap (slot_at slots) at ∙ free in cc clash

    some_steps : t ≢ 0
    some_steps none_left = not_here (
        sym (along-zero (length slots) (omega (arith, h.inside)) hole h.inside)
        ∙ ap (along (length slots) hole) (sym none_left))

    free_ahead : slot_at table (along (length table) (after slots hole) (t - 1)) ≡ empty
    free_ahead =
        ap (λ n. slot_at table (along n (after slots hole) (t - 1))) same_width
        ∙ ap (slot_at table) (
            along-step (length slots) (omega (arith, h.inside)) hole (t - 1)
            ∙ ap (along (length slots) hole) (omega (arith, some_steps)))
        ∙ slot_at-set_other slots hole (along (length slots) hole t) (entry y u g) not_here
        ∙ free

-- One round of the loop, by what the next slot holds.
module _ {ℓ} {K V : Type ℓ} (fuel mask : ℕ) (slots : List (Slot K V)) (hole next : ℕ)
    (step : bit_and (hole + 1) mask ≡ next) where
  shift-empty :
      slot_at slots next ≡ empty
      → shift_back (suc fuel) slots mask hole ≡ some (set slots hole empty)
  unfolding shift_back
  shift-empty e = rw (shift_back, step, e) refl

  shift-home :
      (y : K) (u : V)
      → slot_at slots next ≡ entry y u 0
      → shift_back (suc fuel) slots mask hole ≡ some (set slots hole empty)
  unfolding shift_back
  shift-home y u e = rw (shift_back, step, e) refl

  shift-move :
      (y : K) (u : V) (g : ℕ)
      → slot_at slots next ≡ entry y u (suc g)
      → shift_back (suc fuel) slots mask hole
        ≡ shift_back fuel (set slots hole (entry y u g)) mask next
  unfolding shift_back
  shift-move y u g e =
      rw (shift_back, step, e, ne→== (suc g) 0 (omega arith))
        (ap (λ d. shift_back fuel (set slots hole (entry y u d)) mask (bit_and (hole + 1) mask))
            pred
          ∙ ap (λ i. shift_back fuel (set slots hole (entry y u g)) mask i) step)
    where
      pred : suc g - 1 ≡ g
      pred = omega arith

module _ {ℓ} {K V : Type ℓ} (home : K → ℕ) (bits cap : ℕ) (power : cap ≡ 2 ^ bits) where
  -- With an empty slot ahead the shift ends and closes the hole.
  pub shift_back_lem :
      (fuel : ℕ) (slots : List (Slot K V)) (hole t : ℕ)
      → Holed home slots hole
      → length slots ≡ cap
      → slot_at slots (along (length slots) hole t) ≡ empty
      → t < fuel
      → (slots' : List (Slot K V)) × (shift_back fuel slots (cap - 1) hole ≡ some slots')
        × Closed home slots hole slots'
  shift_back_lem zero slots hole t h w free lt = absurd (omega arith)
  shift_back_lem (suc fuel) slots hole t h w free lt =
      elim (Slot-cases (slot_at slots (after slots hole))) [
        | inl e ↦ (
          _,
          shift-empty fuel (cap - 1) slots hole (after slots hole) (step slots w) e,
          emptied-Closed home slots hole h (λ f a. let clash = sym a.3 ∙ e in cc clash),
        )
        | inr (y, u, zero, e) ↦ (
          _,
          shift-home fuel (cap - 1) slots hole (after slots hole) (step slots w) y u e,
          emptied-Closed home slots hole h
              (λ f a. let both = entry_inj (sym e ∙ a.3) in omega (arith, both.2, a.4)),
        )
        | inr (y, u, suc g, e) ↦
            let (slots', run, c) =
              shift_back_lem fuel (table home slots hole h y u g e) (after slots hole) (t - 1)
                (moved-Holed home slots hole h y u g e) (same_width home slots hole h y u g e ∙ w)
                (free_ahead home slots hole h y u g e t free)
                (omega (arith, some_steps home slots hole h y u g e t free)) in
            (
              slots',
              shift-move fuel (cap - 1) slots hole (after slots hole) (step slots w) y u g e ∙ run,
              moved-Closed home slots hole h y u g e slots' c,
            )
      ]
    where
      step :
          (slots : List (Slot K V))
          → length slots ≡ cap
          → bit_and (hole + 1) (cap - 1) ≡ after slots hole
      step slots w = masked bits (hole + 1) cap power ∙ ap (λ n. (hole + 1) % n) (sym w)
