-- ===== src/DynArray/Pop.antt =====
-- `dynarray_pop`, `dynarray_get`, `dynarray_set` and `dynarray_clear` of src/dynarray.c.
use solidc.Base.{
  ℕ, ◌-◌, ◌*◌, ◌/◌, ◌≤◌, ◌<◌, ◌≡◌, ◌≢◌, refl, sym, ap, ◌∙◌, ◌⊎◌, inl, inr, Bool, true, false, ◌&&◌,
  Option, none, some, List, [], ◌∷◌, ◌++◌, map, arith, ltb, leb, if◌then◌else◌, size_max,
  Bool-cases, tests, length, set, length-append, length-map, length-set, get_elem?, get_elem?-none,
  ne→==,
}
use solidc.DynArray.{
  DynArray, default_capacity, read_slot, pop, get, write, clear, shrink_after_pop,
}
use solidc.DynArray.Layout.{Holds, read_slot-append, read_slot-get_elem?, set-map}
use solidc.DynArray.Reserve.{resize-Holds}

module _ {ℓ} {A : Type ℓ} where
  map-append_one :
      (xs : List A) (x : A) (spare : List (Option A))
      → map some (xs ++ x ∷ []) ++ spare ≡ map some xs ++ some x ∷ spare
  map-append_one [] x spare = refl
  map-append_one (y ∷ xs) x spare = ap (λ ys. some y ∷ ys) (map-append_one xs x spare)

  -- The last slot is spare once `size` is one less.
  Holds-dropped :
      {arr : DynArray A} {xs : List A} (x : A)
      → Holds arr (xs ++ x ∷ [])
      → Holds (record arr { size = arr.size - 1 }) xs
  Holds-dropped {arr} {xs} x v = record {
    spare = some x ∷ v.spare;
    layout = v.layout ∙ map-append_one xs x v.spare;
    size_eq = omega (arith, v.size_eq, length-append xs (x ∷ []));
    capacity_eq = omega (arith, v.capacity_eq, length-append xs (x ∷ []));
    element_pos = v.element_pos;
    fits = v.fits;
  }

  module _ (grants : ℕ → Bool) where
    shrink_after_pop-Holds :
        {arr : DynArray A} {xs : List A} → Holds arr xs → Holds (shrink_after_pop grants arr) xs
    unfolding shrink_after_pop
    shrink_after_pop-Holds {arr} {xs} v =
        elim (Bool-cases (ltb default_capacity arr.capacity && ltb arr.size (arr.capacity / 4))) [
          | inr keep ↦ rw keep v
          | inl shrink ↦ elim (Bool-cases (grants (room * arr.element_size))) [
            | inr refused ↦ rw (shrink, refused) v
            | inl granted ↦
                rw (shrink, granted)
                  (resize-Holds v room (enough shrink)
                    (mul-le_mono room arr.capacity arr.element_size (smaller shrink) v.fits))
          ]
        ]
      where
        room : ℕ
        room =
            if ltb (arr.capacity / 2) default_capacity then default_capacity else arr.capacity / 2

        enough :
            (ltb default_capacity arr.capacity && ltb arr.size (arr.capacity / 4)) ≡ true
            → length xs ≤ room
        enough e = let q : arr.size ≡ length xs = v.size_eq in ground arith

        smaller :
            (ltb default_capacity arr.capacity && ltb arr.size (arr.capacity / 4)) ≡ true
            → room ≤ arr.capacity
        smaller e = ground arith

        mul-le_mono : (a b c : ℕ) → a ≤ b → b * c ≤ size_max → a * c ≤ size_max
        mul-le_mono a b c h k = grind arith

    -- `dynarray_pop` takes the last element off and hands it out; the array holds the rest, whether
    -- the buffer is shrunk or not.
    pub pop_lem :
        {arr : DynArray A} (xs : List A) (x : A)
        → Holds arr (xs ++ x ∷ [])
        → (arr' : DynArray A) × (pop grants (some arr) ≡ (true, some x, some arr')) × Holds arr' xs
    unfolding pop
    pop_lem {arr} xs x v = (
      _,
      rw (ne→== arr.size 0 pos)
          (λ i. (true, top i, some (shrink_after_pop grants (record arr { size = arr.size - 1 })))),
      shrink_after_pop-Holds (Holds-dropped x v),
    )
      where
        pos : arr.size ≢ 0
        pos = omega (arith, v.size_eq, length-append xs (x ∷ []))

        top : read_slot arr.slots (arr.size - 1) ≡ some x
        top =
            rw (v.layout, map-append_one xs x v.spare, (Holds-dropped x v).size_eq)
              (read_slot-append xs x v.spare)

    -- On an empty array it returns false and changes nothing.
    pub pop_empty :
        {arr : DynArray A} → Holds arr [] → pop grants (some arr) ≡ (false, none, some arr)
    unfolding pop
    pop_empty {arr} v = let e : arr.size ≡ 0 = v.size_eq in ground arith

  -- `dynarray_get` agrees with indexing the sequence that the array holds, out of range too.
  pub get_lem :
      {arr : DynArray A} {xs : List A} (i : ℕ) → Holds arr xs → get (some arr) i ≡ get_elem? xs i
  unfolding get
  get_lem {arr} {xs} i v = elim (Bool-cases (leb arr.size i)) [
    | inl out ↦ rw out (sym (get_elem?-none xs i (omega (tests, v.size_eq))))
    | inr within ↦
        rw (within, v.layout) (read_slot-get_elem? xs i v.spare (omega (tests, v.size_eq)))
  ]

  -- `dynarray_set` writes one element of the sequence, or refuses an index out of range.
  pub write_lem :
      {arr : DynArray A} {xs : List A} (i : ℕ) (x : A)
      → Holds arr xs
      → ((i < length xs)
          × (arr' : DynArray A) × (write (some arr) i (some x) ≡ (true, some arr'))
          × Holds arr' (set xs i x))
        ⊎ ((length xs ≤ i) × (write (some arr) i (some x) ≡ (false, some arr)))
  unfolding write
  write_lem {arr} {xs} i x v = elim (Bool-cases (leb arr.size i)) [
    | inl out ↦ inr (omega (tests, v.size_eq), rw out)
    | inr within ↦ inl (
      omega (tests, v.size_eq),
      record arr { slots = set arr.slots i (some x) },
      rw within,
      record {
        spare = v.spare;
        layout = rw v.layout (set-map xs i x v.spare (omega (tests, v.size_eq)));
        size_eq = omega (arith, length-set xs i x, v.size_eq);
        capacity_eq = omega (arith, length-set xs i x, v.capacity_eq);
        element_pos = v.element_pos;
        fits = v.fits;
      },
    )
  ]

  -- `dynarray_clear` leaves an array that holds nothing, in the same buffer.
  pub clear_lem :
      {arr : DynArray A} {xs : List A}
      → Holds arr xs
      → (arr' : DynArray A) × (clear (some arr) ≡ some arr')
        × Holds arr' []
        × (arr'.capacity ≡ arr.capacity)
  unfolding clear
  clear_lem {arr} {xs} v = (
    _,
    refl,
    record {
      spare = map some xs ++ v.spare;
      layout = v.layout;
      size_eq = refl;
      capacity_eq = omega (
        arith,
        v.capacity_eq,
        length-append {ℓ} {A = Option A} (map some xs) v.spare,
        length-map {ℓ, ℓ} {A = A} {B = Option A} some xs,
      );
      element_pos = v.element_pos;
      fits = v.fits;
    },
    refl,
  )
