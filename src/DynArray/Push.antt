-- ===== src/DynArray/Push.antt =====
-- `dynarray_init`, `dynarray_push` and `dynarray_push_n` of src/dynarray.c.
use solidc.Base.{
  ℕ, suc, ◌+◌, ◌-◌, ◌*◌, ◌/◌, ◌≤◌, ◌<◌, ◌≡◌, refl, ap, ◌⊎◌, inl, inr, Bool, true, false, Option,
  none, some, List, [], ◌∷◌, ◌++◌, append-nil, arith, ltb, ◌==◌, if◌then◌else◌, size_max,
  Bool-cases, tests, length, replicate, length-replicate, length-append,
}
use solidc.DynArray.{DynArray, default_capacity, init, copy_to, reserve_at, make_room_for, push_n}
use solidc.DynArray.Growth.{mul-le_of_le_div, calculate_growth_for_lem}
use solidc.DynArray.Layout.{Holds, copy_to-append}
use solidc.DynArray.Reserve.{reserve_at_lem}

le-mul_pos : (a b : ℕ) → 0 < b → a ≤ a * b
le-mul_pos a b h = grind arith

module _ {ℓ} {A : Type ℓ} where
  append_all :
      {arr : DynArray A} {xs : List A} (ys : List A)
      → Holds arr xs
      → (n : ℕ) → n ≡ length xs + length ys
      → n ≤ arr.capacity
      → Holds (record arr { slots = copy_to arr.slots arr.size ys; size = n }) (xs ++ ys)
  append_all {arr} {xs} ys v n e h =
      let (rest, p, q) =
        copy_to-append ys xs v.spare arr.size v.size_eq (omega (arith, v.capacity_eq)) in
      record {
        spare = rest;
        layout = rw v.layout p;
        size_eq = omega (arith, length-append xs ys);
        capacity_eq = omega (arith, length-append xs ys, v.capacity_eq);
        element_pos = v.element_pos;
        fits = v.fits;
      }

  module _ (grants : ℕ → Bool) where
    -- `dynarray_init` gives an array that holds nothing, of the capacity asked for or the default
    -- one. It refuses, and leaves its argument alone, exactly when the element size is 0, the size
    -- in bytes does not fit in `size_t`, or the allocator refuses.
    pub init_lem :
        (old : DynArray A) (element_size initial_capacity : ℕ)
        → let n = if initial_capacity == 0 then default_capacity else initial_capacity in
          ((arr : DynArray A) × (init grants (some old) element_size initial_capacity
              ≡ (true, some arr))
            × Holds arr []
            × (arr.capacity ≡ n)
            × (arr.element_size ≡ element_size))
          ⊎ ((init grants (some old) element_size initial_capacity ≡ (false, some old))
              × ((element_size ≡ 0)
                  ⊎ (size_max / element_size < n)
                  ⊎ (grants (element_size * n) ≡ false)))
    unfolding init
    init_lem old element_size initial_capacity = elim (Bool-cases (element_size == 0)) [
      | inl z ↦ inr (rw z, inl (omega tests))
      | inr pos ↦ elim (Bool-cases (ltb (size_max / element_size) n)) [
        | inl over ↦ inr (rw (pos, over), inr (inl (omega tests)))
        | inr small ↦ elim (Bool-cases (grants (element_size * n))) [
          | inr refused ↦ inr (rw (pos, small, refused), inr (inr refused))
          | inl granted ↦ inl (
            _,
            rw (pos, small, granted),
            record {
              spare = replicate n none;
              layout = refl;
              size_eq = refl;
              capacity_eq = omega (arith, length-replicate {ℓ} {A = Option A} n none);
              element_pos = ground arith;
              fits = mul-le_of_le_div n element_size size_max (ground arith) (omega tests);
            },
            refl,
            refl,
          )
        ]
      ]
    ]
      where
        n : ℕ
        n = if initial_capacity == 0 then default_capacity else initial_capacity

    -- `make_room_for` always returns: with room for `required` elements, or with nothing changed.
    make_room_for_lem :
        {arr : DynArray A} {xs : List A} (required : ℕ)
        → 0 < required
        → Holds arr xs
        → ((arr' : DynArray A) × (make_room_for grants arr required ≡ some (true, arr'))
            × Holds arr' xs
            × (required ≤ arr'.capacity))
          ⊎ ((make_room_for grants arr required ≡ some (false, arr)) × (arr.capacity < required))
    unfolding make_room_for
    make_room_for_lem {arr} {xs} required p v = elim (Bool-cases (ltb arr.capacity required)) [
      | inr room ↦ inl (arr, rw room, v, omega tests)
      | inl short ↦
          let (r, e, zero_iff, bounds) =
            calculate_growth_for_lem arr.capacity required arr.element_size v.element_pos p
              v.fits in
          elim (Bool-cases (r == 0)) [
            | inl over ↦ inr (rw (short, e, over), omega tests)
            | inr more ↦ elim (Bool-cases (reserve_at grants arr r).0) [
              | inl done ↦ inl (
                (reserve_at grants arr r).1,
                rw (short, e, more) (λ i. some (done i, (reserve_at grants arr r).1)),
                (reserve_at_lem v grants r).0,
                omega (tests, (bounds (ground arith)).0, (reserve_at_lem v grants r).1 done),
              )
              | inr failed ↦ inr (
                rw (short, e, more)
                    (λ i. some (failed i, ((reserve_at_lem v grants r).2 failed).0 i)),
                omega tests,
              )
            ]
          ]
    ]

    -- `dynarray_push_n` always returns. It appends all the elements, in order, or returns false and
    -- leaves the array as it was, which happens only when they do not fit in the capacity.
    pub push_n_lem :
        {arr : DynArray A} {xs : List A} (ys : List A)
        → Holds arr xs
        → ((arr' : DynArray A) × (push_n grants (some arr) (some ys) ≡ some (true, some arr'))
            × Holds arr' (xs ++ ys))
          ⊎ ((push_n grants (some arr) (some ys) ≡ some (false, some arr))
              × (arr.capacity < length xs + length ys))
    unfolding push_n
    push_n_lem {arr} {xs} [] v = inl (arr, refl, rw append-nil v)
    push_n_lem {arr} {xs} (y ∷ ys) v =
        elim (Bool-cases (ltb (size_max - arr.size) (suc (length ys)))) [
          | inl over ↦ inr (
            rw (nonzero, over),
            omega (tests, v.size_eq, le-mul_pos arr.capacity arr.element_size v.element_pos),
          )
          | inr small ↦ elim (make_room_for_lem (arr.size + suc (length ys)) (omega arith) v) [
            | inl (arr', e, v', room) ↦ inl (
              _,
              rw (nonzero, small, e),
              append_all (y ∷ ys) v' (arr.size + suc (length ys))
                  (ap (λ n. n + suc (length ys)) v.size_eq) room,
            )
            | inr (e, full) ↦ inr (rw (nonzero, small, e), omega (arith, v.size_eq))
          ]
        ]
      where
        nonzero : (suc (length ys) == 0) ≡ false
        nonzero = ground arith
