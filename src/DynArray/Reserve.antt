-- ===== src/DynArray/Reserve.antt =====
-- `dynarray_init`, `dynarray_reserve`, `dynarray_shrink_to_fit` of src/dynarray.c.
use solidc.Base.{
  ℕ, ◌+◌, ◌-◌, ◌*◌, ◌/◌, ◌≤◌, ◌<◌, ◌≡◌, refl, ap, ◌∙◌, ◌⊎◌, inl, inr, Bool, true, false, not, ◌&&◌,
  some, List, ◌++◌, map, arith, ltb, leb, ◌==◌, if◌then◌else◌, size_max, Bool-cases, tests, length,
  max,
}
use solidc.DynArray.{
  DynArray, default_capacity, resize, reserve_at, reserve, shrink_to_fit, make_room,
  calculate_growth,
}
use solidc.DynArray.Growth.{mul-le_of_le_div, lt-mul_of_div_lt, calculate_growth_bounds}
use solidc.DynArray.Layout.{Holds, resize-append, length-resize}

module _ {ℓ} {A : Type ℓ} {arr : DynArray A} {xs : List A} (v : Holds arr xs) where
  -- `realloc` to any room that the elements and `size_t` allow
  pub resize-Holds :
      (n : ℕ)
      → length xs ≤ n
      → n * arr.element_size ≤ size_max
      → Holds (record arr { slots = resize n arr.slots; capacity = n }) xs
  resize-Holds n lo fit = record {
    spare = resize (n - length xs) v.spare;
    layout = rw v.layout (
        ap (λ k. resize k (map some xs ++ v.spare)) room
        ∙ resize-append xs (n - length xs) v.spare);
    size_eq = v.size_eq;
    capacity_eq = omega (arith, length-resize (n - length xs) v.spare);
    element_pos = v.element_pos;
    fits = fit;
  }
    where
      room : n ≡ length xs + (n - length xs)
      room = omega arith

  module _ (grants : ℕ → Bool) where
    pub reserve_at_lem :
        (n : ℕ)
        → Holds (reserve_at grants arr n).1 xs
          × ((reserve_at grants arr n).0 ≡ true
              → (reserve_at grants arr n).1.capacity ≡ max n (length xs))
          × ((reserve_at grants arr n).0 ≡ false
              → ((reserve_at grants arr n).1 ≡ arr)
                × ((grants (max n (length xs) * arr.element_size) ≡ false)
                    ⊎ (size_max < max n (length xs) * arr.element_size)))
    unfolding reserve_at
    reserve_at_lem n = elim (Bool-cases (room == arr.capacity)) [
      | inl same ↦ rw same (v, λ _. omega (tests, sizes), λ e. cc)
      | inr other ↦ elim (Bool-cases (ltb (size_max / arr.element_size) room)) [
        | inl over ↦
            rw (other, over)
              (
                v,
                λ e. cc,
                λ _. (
                  refl,
                  inr (
                      rw (← sizes) (
                        lt-mul_of_div_lt room arr.element_size size_max v.element_pos
                          (omega tests))),
                ),
              )
        | inr small ↦ elim (Bool-cases (not (grants (room * arr.element_size)) && ltb 0 room)) [
          | inl refused ↦
              rw (other, small, refused)
                (v, λ e. cc, λ _. (refl, inl (rw (← sizes) (refusal refused))))
          | inr granted ↦
              rw (other, small, granted)
                (
                  resize-Holds room (omega (arith, sizes))
                      (mul-le_of_le_div room arr.element_size size_max v.element_pos (omega tests)),
                  λ _. sizes,
                  λ e. cc,
                )
        ]
      ]
    ]
      where
        room : ℕ
        room = if ltb n arr.size then arr.size else n

        refusal :
            (not (grants (room * arr.element_size)) && ltb 0 room) ≡ true
            → grants (room * arr.element_size) ≡ false
        refusal e = ground arith

        sizes : room ≡ max n (length xs)
        sizes = let e : arr.size ≡ length xs = v.size_eq in ground arith

    -- `shrink_to_fit` of an array keeps its elements; if it succeeds, the capacity is the number of
    -- elements or the default capacity, the larger of the two.
    pub shrink_to_fit_lem :
        (arr' : DynArray A) (done : Bool)
        → shrink_to_fit grants (some arr) ≡ (done, some arr')
        → Holds arr' xs × (done ≡ true → arr'.capacity ≡ max default_capacity (length xs))
    unfolding shrink_to_fit reserve
    shrink_to_fit_lem arr' done e =
        let target : ℕ = if ltb default_capacity arr.size then arr.size else default_capacity in
        let sizes : target ≡ max default_capacity (length xs) =
          (let q : arr.size ≡ length xs = v.size_eq in ground arith) in
        ground (arith, reserve_at_lem target)

    -- `make_room` gives a free slot and keeps the elements, or changes nothing; it fails only on a
    -- full array, where the growth overflows or the allocator refuses.
    pub make_room_lem :
        ((arr' : DynArray A) × (make_room grants arr ≡ (true, arr'))
          × Holds arr' xs
          × (length xs < arr'.capacity))
        ⊎ ((make_room grants arr ≡ (false, arr))
            × (length xs ≡ arr.capacity)
            × ((calculate_growth arr.capacity arr.element_size ≡ 0)
                ⊎ (grants (calculate_growth arr.capacity arr.element_size * arr.element_size)
                    ≡ false)))
    unfolding make_room
    make_room_lem = elim (Bool-cases (leb arr.capacity arr.size)) [
      | inr room ↦ inl (arr, rw room, v, omega (tests, v.size_eq))
      | inl full ↦ elim (Bool-cases (grown == 0)) [
        | inl over ↦
            inr (rw (full, over), omega (tests, v.size_eq, v.capacity_eq), inl (omega tests))
        | inr more ↦ elim (Bool-cases (reserve_at grants arr grown).0) [
          | inl done ↦ inl (
            (reserve_at grants arr grown).1,
            rw (full, more) (λ i. (done i, (reserve_at grants arr grown).1)),
            (reserve_at_lem grown).0,
            omega (tests, bounds more, v.size_eq, v.capacity_eq, (reserve_at_lem grown).1 done),
          )
          | inr failed ↦ inr (
            rw (full, more) (λ i. (failed i, ((reserve_at_lem grown).2 failed).0 i)),
            omega (tests, v.size_eq, v.capacity_eq),
            inr (
                ground (
                  arith,
                  bounds more,
                  v.capacity_eq,
                  ((reserve_at_lem grown).2 failed).1,
                  max_eq more,
                )),
          )
        ]
      ]
    ]
      where
        grown : ℕ
        grown = calculate_growth arr.capacity arr.element_size

        bounds :
            (grown == 0) ≡ false → (arr.capacity < grown) × (grown * arr.element_size ≤ size_max)
        bounds more =
            ground (arith, calculate_growth_bounds arr.capacity arr.element_size v.element_pos)

        max_eq : (grown == 0) ≡ false → max grown (length xs) ≡ grown
        max_eq more = omega (arith, bounds more, v.capacity_eq)
