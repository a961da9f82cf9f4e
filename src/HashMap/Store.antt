-- ===== src/HashMap/Store.antt =====
-- The loop of map_set and of map_resize in src/map.c, for a key that the table does not have.
use mathlib.Core.Path.{subst}
use solidc.Base.{
  ℕ, ◌+◌, ◌-◌, ◌%◌, ◌≤◌, ◌<◌, ◌≡◌, ◌≢◌, refl, sym, ap, ◌∙◌, ◌⊎◌, inl, inr, List, arith, length,
  length-set,
}
use solidc.HashMap.{Slot, empty, entry, slot_at}
use solidc.HashMap.Slots.{
  slot_at-set_same, slot_at-set_other, entry_inj, occupied, taken, occupied-set,
}
use solidc.HashMap.Probe.{
  along, along-lt, along-zero, along-suc, along-step, AtLeast, Passed, Contains, Missing, Arranged,
}
use solidc.HashMap.Insert.{index_cases, written, reads, Passed-written, written-Arranged}

-- `slots'` is well-formed and has one entry more than `slots`, that of `k` and `v`.
pub record Added {ℓ} {K V : Type ℓ} (home : K → ℕ) (slots : List (Slot K V)) (k : K) (v : V)
    (slots' : List (Slot K V)) : Type ℓ where
  pub arranged : Arranged home slots'
  pub width : length slots' ≡ length slots
  pub count : occupied slots' ≡ occupied slots + 1
  pub keeps : (x : K) (w : V) → Contains slots x w → Contains slots' x w
  pub adds : Contains slots' k v
  pub only : (x : K) (w : V) → Contains slots' x w → Contains slots x w ⊎ ((x ≡ k) × (w ≡ v))

abbrev pub after {ℓ} : {K V : Type ℓ} → List (Slot K V) → ℕ → ℕ
after slots idx = (idx + 1) % length slots

module _ {ℓ} {K V : Type ℓ} (home : K → ℕ) where
  -- The key is on its way: it is `d` steps from home at `idx`, and an empty slot is `t` steps ahead.
  pub record OnWay (slots : List (Slot K V)) (idx : ℕ) (k : K) (d t : ℕ) : Type ℓ where
    pub arranged : Arranged home slots
    pub inside : idx < length slots
    pub here : idx ≡ along (length slots) (home k) d
    pub way : Passed slots (home k) d
    pub missing : Missing slots k
    pub free : slot_at slots (along (length slots) idx t) ≡ empty

  module _ (slots : List (Slot K V)) (idx : ℕ) (k : K) (v : V) (d t : ℕ) (o : OnWay slots idx k d t)
      (low : d < length slots) where
    pub place-Added :
        slot_at slots idx ≡ empty → Added home slots k v (written slots idx k v d o.inside)
    place-Added e = record {
      arranged =
          written-Arranged slots idx k v d o.inside home o.arranged low o.here o.way o.missing
            (λ f a. absurd (entry_ne (sym a.3 ∙ e)));
      width = length-set slots idx (entry k v d);
      count = omega (arith, occupied-set slots idx (entry k v d) o.inside, ap taken e);
      keeps = λ x w (i, f, c). (
        i,
        f,
        slot_at-set_other slots idx i (entry k v d)
              (λ same. entry_ne (sym c ∙ ap (slot_at slots) (sym same) ∙ e))
            ∙ c,
      );
      adds = (idx, d, slot_at-set_same slots idx (entry k v d) o.inside);
      only = λ x w (i, f, c). elim (reads slots idx k v d o.inside i x w f c) [
        | inl (_, kx, vw, _) ↦ inr (sym kx, sym vw)
        | inr (_, old) ↦ inl (i, f, old)
      ];
    }
      where
        entry_ne : {x : K} {w : V} {f : ℕ} → entry x w f ≢ empty
        entry_ne h = cc

  module _ (slots : List (Slot K V)) (idx : ℕ) (k : K) (v : V) (d t : ℕ) (o : OnWay slots idx k d t)
      (k' : K) (v' : V) (d' : ℕ) (e : slot_at slots idx ≡ entry k' v' d') where
    -- The empty slot is not this one.
    pub free_later : t ≢ 0
    free_later h =
        let same =
          sym e
          ∙ ap (slot_at slots)
              (sym (along-zero (length slots) (omega (arith, o.inside)) idx o.inside))
          ∙ ap (λ n. slot_at slots (along (length slots) idx n)) (sym h)
          ∙ o.free in
        cc same

    free_after : along (length slots) (after slots idx) (t - 1) ≡ along (length slots) idx t
    free_after =
        along-step (length slots) (omega (arith, o.inside)) idx (t - 1)
        ∙ ap (along (length slots) idx) (omega (arith, free_later))

    after_inside : after slots idx < length slots
    after_inside = along-lt (length slots) (omega (arith, o.inside)) idx 1

    after-home :
        (x : K) (f : ℕ)
        → idx ≡ along (length slots) (home x) f
        → after slots idx ≡ along (length slots) (home x) (f + 1)
    after-home x f h =
        ap (λ i. (i + 1) % length slots) h
        ∙ along-suc (length slots) (omega (arith, o.inside)) (home x) f

    farther :
        (table : List (Slot K V)) (x : K) (f : ℕ)
        → length table ≡ length slots
        → idx ≡ along (length slots) (home x) f
        → Passed table (home x) f
        → AtLeast table idx f
        → Passed table (home x) (f + 1)
    farther table x f w h p a g lt = elim (index_cases g f) [
      | inl same ↦
          subst (λ i. AtLeast table i g)
            (h
              ∙ ap (along (length slots) (home x)) (sym same)
              ∙ ap (λ n. along n (home x) g) (sym w))
            (a.0, a.1, a.2, a.3, omega (arith, a.4, same))
      | inr other ↦ p g (omega arith)
    ]

    pub pass-OnWay : d ≤ d' → OnWay slots (after slots idx) k (d + 1) (t - 1)
    pass-OnWay le = record {
      arranged = o.arranged;
      inside = after_inside;
      here = after-home k d o.here;
      way = farther slots k d refl o.here o.way (k', v', d', e, le);
      missing = o.missing;
      free = ap (slot_at slots) free_after ∙ o.free;
    }

    module _ (lt : d' < d) (low : d < length slots) where
      abbrev robbed : List (Slot K V)
      robbed = written slots idx k v d o.inside

      richer : (f : ℕ) → AtLeast slots idx f → f ≤ d
      richer f a = let both = entry_inj (sym e ∙ a.3) in omega (arith, both.2, a.4)

      robbed_width : length robbed ≡ length slots
      robbed_width = length-set slots idx (entry k v d)

      robbed-Missing : Missing robbed k'
      robbed-Missing i w f c = elim (reads slots idx k v d o.inside i k' w f c) [
        | inl (_, kx, _, _) ↦ o.missing idx v' d' (e ∙ ap (λ y. entry y v' d') (sym kx))
        | inr (other, old) ↦ other (o.arranged.single idx i k' v' w d' f e old)
      ]

      robbed_free : slot_at robbed (along (length robbed) (after robbed idx) (t - 1)) ≡ empty
      robbed_free =
          ap (λ n. slot_at robbed (along n ((idx + 1) % n) (t - 1))) robbed_width
          ∙ ap (slot_at robbed) free_after
          ∙ slot_at-set_other slots idx (along (length slots) idx t) (entry k v d) apart
          ∙ o.free
        where
          apart : idx ≢ along (length slots) idx t
          apart h = cc (sym e ∙ ap (slot_at slots) h ∙ o.free)

      pub rob-OnWay : OnWay robbed (after robbed idx) k' (d' + 1) (t - 1)
      rob-OnWay = record {
        arranged =
            written-Arranged slots idx k v d o.inside home o.arranged low o.here o.way o.missing
              richer;
        inside = rw robbed_width after_inside;
        here = rw robbed_width (after-home k' d' (o.arranged.stands idx k' v' d' e).0);
        way =
            farther robbed k' d' robbed_width (o.arranged.stands idx k' v' d' e).0
              (Passed-written slots idx k v d o.inside richer (home k') d'
                (o.arranged.passed idx k' v' d' e))
              (k, v, d, slot_at-set_same slots idx (entry k v d) o.inside, omega arith);
        missing = robbed-Missing;
        free = robbed_free;
      }

      -- What the rest of the loop adds to the table with the resident's place taken.
      pub rob-Added :
          (slots' : List (Slot K V)) → Added home robbed k' v' slots' → Added home slots k v slots'
      rob-Added slots' a = record {
        arranged = a.arranged;
        width = a.width ∙ robbed_width;
        count = omega (arith, a.count, occupied-set slots idx (entry k v d) o.inside, ap taken e);
        keeps = λ x w (i, f, c). elim (index_cases idx i) [
          | inl same ↦
              let both = entry_inj (sym e ∙ ap (slot_at slots) same ∙ c) in
              subst (λ y. Contains slots' y w) both.0
                (subst (λ u. Contains slots' k' u) both.1 a.adds)
          | inr other ↦ a.keeps x w (i, f, slot_at-set_other slots idx i (entry k v d) other ∙ c)
        ];
        adds = a.keeps k v (idx, d, slot_at-set_same slots idx (entry k v d) o.inside);
        only = λ x w c. elim (a.only x w c) [
          | inr (kx, vw) ↦
              inl (idx, d', e ∙ ap (λ y. entry y v' d') (sym kx) ∙ ap (λ u. entry x u d') (sym vw))
          | inl (i, f, old) ↦ elim (reads slots idx k v d o.inside i x w f old) [
            | inl (_, kx, vw, _) ↦ inr (sym kx, sym vw)
            | inr (_, older) ↦ inl (i, f, older)
          ]
        ];
      }
