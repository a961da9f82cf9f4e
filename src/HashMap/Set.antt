-- ===== src/HashMap/Set.antt =====
-- map_set of src/map.c, on every branch.
use solidc.Base.{
  ℕ, ◌+◌, ◌*◌, ◌<◌, ◌≡◌, sym, ap, ◌∙◌, ◌⊎◌, inl, inr, Bool, true, false, Option, none, some, arith,
  if◌then◌else◌,
}
use solidc.HashMap.{HashMap, set_in, map_set, map_get}
use solidc.HashMap.Probe.{Missing}
use solidc.HashMap.Loop.{store-Added}
use solidc.HashMap.Table.{IsValid, Contains-or_Missing, setting_out, home_lt, map_get-Missing}
use solidc.HashMap.Room.{IsRefused, Roomy, make_room_lem}
use solidc.HashMap.Assign.{gained, IsAssigned, get_after, home, old_get, set_present, set_in-placed}

module _ {ℓ} {K V : Type ℓ} (hash : K → ℕ → ℕ) (key_compare : K → K → Bool)
    (sound : (a b : K) → key_compare a b ≡ true → a ≡ b)
    (reflexive : (a : K) → key_compare a a ≡ true) (len : ℕ) where
  module _ (m m' : HashMap K V) (k : K) (v : V) (before : IsValid hash len m)
      (roomy : Roomy hash len m m') where
    set-Missing :
        Missing m'.slots k
        → (m'' : HashMap K V) × (set_in hash key_compare m' k len v
            ≡ (true, some m'', map_get hash key_compare (some m) (some k) len))
          × IsAssigned hash key_compare sound reflexive len m k v m''
    set-Missing missing =
        let h = home hash key_compare sound reflexive len m m' k v before roomy in
        let got : map_get hash key_compare (some m) (some k) len ≡ none =
          sym (old_get hash key_compare sound reflexive len m m' k v before roomy)
          ∙ map_get-Missing hash key_compare sound reflexive len m' roomy.valid k missing in
        let (t, lt, o) =
          setting_out h m'.slots k roomy.valid.arranged
            (omega (
              arith,
              roomy.valid.width,
              home_lt hash key_compare sound reflexive len m' roomy.valid k,
            ))
            (omega (arith, roomy.valid.width, roomy.free, roomy.valid.count)) missing in
        let (slots, run, a) =
          store-Added h key_compare sound roomy.valid.bits m'.capacity roomy.valid.power m'.capacity
            m'.slots (h k) k v 0 t o roomy.valid.width (omega arith)
            (omega (arith, roomy.valid.width)) in
        let valid : IsValid hash len (record m' { slots = slots; size = m'.size + 1 }) = record {
          arranged = a.arranged;
          width = a.width ∙ roomy.valid.width;
          bits = roomy.valid.bits;
          power = roomy.valid.power;
          wide = roomy.valid.wide;
          count = omega (arith, a.count, roomy.valid.count);
        } in
        (
          record m' { slots = slots; size = m'.size + 1 },
          set_in-placed hash key_compare sound reflexive len m' k v slots run
              ∙ ap (λ o. (true, some (record m' { slots = slots; size = m'.size + 1 }), o))
                  (sym got),
          record {
            valid = valid;
            size_eq = omega (arith, roomy.size_eq, ap gained got);
            get_eq =
                get_after hash key_compare sound reflexive len m k v
                  (record m' { slots = slots; size = m'.size + 1 }) before valid a.adds
                  (λ x w ne c. a.keeps x w (roomy.keeps x w c))
                  (λ x w ne c. elim (a.only x w c) [
                    | inl old ↦ roomy.only x w old
                    | inr (same, _) ↦ absurd (ne (sym same))
                  ]);
          },
        )

    set_in_lem :
        (m'' : HashMap K V) × (set_in hash key_compare m' k len v
          ≡ (true, some m'', map_get hash key_compare (some m) (some k) len))
        × IsAssigned hash key_compare sound reflexive len m k v m''
    set_in_lem = elim (Contains-or_Missing key_compare sound reflexive m'.slots k) [
      | inl (old, (i, d, e)) ↦
          set_present hash key_compare sound reflexive len m m' k v before roomy i d old e
      | inr missing ↦ set-Missing missing
    ]

  -- `map_set` on a well-formed map returns true and leaves a well-formed map, where the key has the
  -- value and every other key what it had, `size` has grown by one exactly if the key was not there, and
  -- the old value is the one that is freed; or it returns false and changes nothing, and then the load
  -- has reached its limit, and twice the capacity is more than SIZE_MAX / 2, or the
  -- allocator refuses one of the two arrays of that size. The key comparison decides equality, all keys are hashed with one length,
  -- and a map whose load is below the limit has a free slot.
  pub map_set_lem :
      (grants : ℕ → Bool) (overloaded : ℕ → ℕ → Bool)
      → ((n c : ℕ) → overloaded n c ≡ false → n < c)
      → (m : HashMap K V) (k : K) (v : V) → IsValid hash len m
      → ((m' : HashMap K V) × (map_set hash grants overloaded key_compare (some m) (some k) len v
            ≡ (true, some m', map_get hash key_compare (some m) (some k) len))
          × IsAssigned hash key_compare sound reflexive len m k v m')
        ⊎ ((map_set hash grants overloaded key_compare (some m) (some k) len v
              ≡ (false, some m, none))
            × (overloaded m.size m.capacity ≡ true)
            × IsRefused grants (m.capacity * 2))
  unfolding map_set
  map_set_lem grants overloaded below m k v valid =
      elim (make_room_lem hash len m valid grants overloaded below) [
        | inl (m', room, roomy) ↦
            let (m'', run, is_set) = set_in_lem m m' k v valid roomy in
            inl (m'', ap after_room room ∙ run, is_set)
        | inr (full, heavy, why) ↦ inr (ap after_room full, heavy, why)
      ]
    where
      after_room : Bool × HashMap K V → Bool × Option (HashMap K V) × Option V
      after_room p = if p.0 then set_in hash key_compare p.1 k len v else (false, some p.1, none)
