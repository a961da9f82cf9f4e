-- ===== src/HashMap/Room.antt =====
-- map_resize of src/map.c on a well-formed map, and the growth at the start of map_set.
use Prim.Native.Nat.{bit_and}
use native.Mathlib.Nat.{pow-suc}
use solidc.Base.{
  ℕ, suc, ◌+◌, ◌-◌, ◌*◌, ◌/◌, ◌^◌, ◌≤◌, ◌<◌, ◌≡◌, ◌≢◌, refl, sym, ap, ◌∙◌, ◌⊎◌, inl, inr, Bool,
  true, false, arith, leb, ltb, ◌&&◌, if◌then◌else◌, size_max, replicate, length-replicate,
  Bool-cases, leb→le, leb→gt, ltb→lt,
}
use solidc.HashMap.{HashMap, empty, entry, slot_at, map_resize, make_room, calculate_new_capacity}
use solidc.HashMap.Slots.{occupied, slot_at-replicate, occupied-replicate}
use solidc.HashMap.Probe.{Contains}
use solidc.HashMap.Table.{IsValid, capacity_pos}
use solidc.HashMap.Resize.{fresh-Arranged}
use solidc.HashMap.Grow.{rehash_lem, occupied-le-length}

-- `new_capacity` is more than SIZE_MAX / 2, or one of the two arrays of a table of that size is
-- refused.
abbrev pub IsRefused : (ℕ → Bool) → ℕ → Type 0
IsRefused grants new_capacity =
    (size_max / 2 < new_capacity)
    ⊎ ((grants (new_capacity * 2 * 8) ≡ false) ⊎ (grants (new_capacity * 8) ≡ false))

-- `m'` is well-formed and has the entries of `m`, and a slot is free.
pub record Roomy {ℓ} {K V : Type ℓ} (hash : K → ℕ → ℕ) (len : ℕ) (m m' : HashMap K V) : Type ℓ where
  pub valid : IsValid hash len m'
  pub size_eq : m'.size ≡ m.size
  pub free : m'.size < m'.capacity
  pub keeps : (x : K) (w : V) → Contains m.slots x w → Contains m'.slots x w
  pub only : (x : K) (w : V) → Contains m'.slots x w → Contains m.slots x w

module _ {ℓ} {K V : Type ℓ} (hash : K → ℕ → ℕ) (len : ℕ) (m : HashMap K V)
    (valid : IsValid hash len m) where
  -- A resize to a greater power of two keeps the entries, or it is refused and changes nothing.
  pub map_resize_lem :
      (grants : ℕ → Bool) (new_capacity bits : ℕ)
      → new_capacity ≡ 2 ^ bits
      → m.capacity < new_capacity
      → ((m' : HashMap K V) × (map_resize hash grants m new_capacity len ≡ (true, m'))
          × Roomy hash len m m')
        ⊎ ((map_resize hash grants m new_capacity len ≡ (false, m)) × IsRefused grants new_capacity)
  unfolding map_resize
  map_resize_lem grants new_capacity bits power more =
      elim (Bool-cases (ltb (size_max / 2) new_capacity)) [
        | inl over ↦
            inr (ground arith, inl (omega (arith, ltb→lt (size_max / 2) new_capacity over)))
        | inr fits ↦
            elim (Bool-cases (grants (new_capacity * 2 * 8) && grants (new_capacity * 8))) [
              | inr refused ↦ inr (ground arith, inr (and_false-or refused))
              | inl granted ↦
                  let fresh = replicate new_capacity empty in
                  let (slots', run, j) =
                    rehash_lem hash len bits new_capacity power m.slots fresh 0
                      valid.arranged.single
                      (λ i k v d e i' v' d' e'. absurd (no_entry i' k v' d' e'))
                      (fresh-Arranged (λ k. bit_and (hash k len) (new_capacity - 1)) new_capacity)
                      (length-replicate new_capacity empty)
                      (omega (
                        arith,
                        occupied-replicate K V new_capacity,
                        occupied-le-length m.slots,
                        valid.width,
                      )) in
                  inl (
                    record { slots = slots'; size = 0 + occupied m.slots; capacity = new_capacity },
                    ground (arith, run),
                    record {
                      valid = record {
                        arranged = j.arranged;
                        width = j.width ∙ length-replicate new_capacity empty;
                        bits = bits;
                        power = power;
                        wide = omega (arith, valid.wide);
                        count = omega (arith, j.count, occupied-replicate K V new_capacity);
                      };
                      size_eq = omega (arith, valid.count);
                      free = omega (arith, occupied-le-length m.slots, valid.width);
                      keeps = λ x w c. j.joins x w c;
                      only = λ x w c. elim (j.only x w c) [
                        | inl (i, d, e) ↦ absurd (no_entry i x w d e)
                        | inr old ↦ old
                      ];
                    },
                  )
            ]
      ]
    where
      and_false-or : {a b : Bool} → (a && b) ≡ false → (a ≡ false) ⊎ (b ≡ false)
      and_false-or {a = true} h = inr h
      and_false-or {a = false} h = inl refl

      no_entry :
          (i : ℕ) (k : K) (v : V) (d : ℕ)
          → slot_at {K = K} {V = V} (replicate new_capacity empty) i ≢ entry k v d
      no_entry i k v d e = let clash = sym (slot_at-replicate K V new_capacity i) ∙ e in cc clash

  doubled : m.capacity ≤ size_max / 2 → calculate_new_capacity m.capacity ≡ m.capacity * 2
  unfolding calculate_new_capacity
  doubled h = ground arith

  too_wide :
      (grants : ℕ → Bool) (n : ℕ) → size_max / 2 < n → map_resize hash grants m n len ≡ (false, m)
  unfolding map_resize
  too_wide grants n h = ground arith

  saturated : size_max / 2 < m.capacity → calculate_new_capacity m.capacity ≡ size_max
  unfolding calculate_new_capacity
  saturated h = ground arith

  -- Before an entry is stored the map is well-formed with a slot free and the same entries; or the map
  -- is too full, a table twice as large is refused, and nothing has changed.
  pub make_room_lem :
      (grants : ℕ → Bool) (overloaded : ℕ → ℕ → Bool)
      → ((n c : ℕ) → overloaded n c ≡ false → n < c)
      → ((m' : HashMap K V) × (make_room hash grants overloaded m len ≡ (true, m'))
          × Roomy hash len m m')
        ⊎ ((make_room hash grants overloaded m len ≡ (false, m))
            × (overloaded m.size m.capacity ≡ true)
            × IsRefused grants (m.capacity * 2))
  unfolding make_room
  make_room_lem grants overloaded below = elim (Bool-cases (overloaded m.size m.capacity)) [
    | inr light ↦ inl (
      m,
      rw light refl,
      record {
        valid = valid;
        size_eq = refl;
        free = below m.size m.capacity light;
        keeps = λ x w c. c;
        only = λ x w c. c;
      },
    )
    | inl heavy ↦ elim (Bool-cases (leb m.capacity (size_max / 2))) [
      | inl small ↦
          let twice = doubled (leb→le m.capacity (size_max / 2) small) in
          let positive = capacity_pos m valid.bits valid.power in
          let more : leb (m.capacity * 2) m.capacity ≡ false = ground arith in
          elim (map_resize_lem grants (m.capacity * 2) (suc valid.bits)
            (ap (λ c. c * 2) valid.power ∙ sym (pow-suc 2 valid.bits)) (omega arith)) [
              | inl (m', run, roomy) ↦ inl (m', rw (heavy, twice, more) run, roomy)
              | inr (refused, why) ↦ inr (rw (heavy, twice, more) refused, heavy, why)
            ]
      | inr large ↦ inr (
        rw heavy (
            wide_or_not (leb→gt m.capacity (size_max / 2) large)
              (leb (calculate_new_capacity m.capacity) m.capacity)),
        heavy,
        inl (omega (arith, leb→gt m.capacity (size_max / 2) large)),
      )
    ]
  ]
    where
      wide :
          size_max / 2 < m.capacity
          → map_resize hash grants m (calculate_new_capacity m.capacity) len ≡ (false, m)
      wide h = too_wide grants (calculate_new_capacity m.capacity) (omega (arith, saturated h))

      wide_or_not :
          size_max / 2 < m.capacity
          → (b : Bool)
          → (if b
              then (false, m)
              else map_resize hash grants m (calculate_new_capacity m.capacity) len)
            ≡ (false, m)
      wide_or_not h true = refl
      wide_or_not h false = wide h
