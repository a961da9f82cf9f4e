-- ===== src/DynArray.antt =====
-- src/dynarray.c and include/dynarray.h: an array that grows and shrinks. The buffer is a list of
-- `capacity` slots of `element_size` bytes each, `none` where nothing was written since it was
-- allocated. A pointer that the code tests against NULL is an `Option`. The allocator is a
-- parameter: `grants n` tells whether a request for `n` bytes is met.

pub mod Growth
pub mod Layout
pub mod Reserve
pub mod Push
pub mod Pop
mod Tests
use solidc.Base.{
  ℕ, zero, suc, ◌+◌, ◌-◌, ◌*◌, ◌/◌, Bool, true, false, ◌&&◌, not, Option, none, some, List, [], ◌∷◌,
  ltb, leb, ◌==◌, if◌then◌else◌, size_max, set, replicate, length,
}

abbrev pub growth_numerator : ℕ
growth_numerator = 3

abbrev pub growth_denominator : ℕ
growth_denominator = 2

abbrev pub default_capacity : ℕ
default_capacity = 8

abbrev pub shrink_threshold : ℕ
shrink_threshold = 4

-- `new_capacity`, or 0 on overflow
pub calculate_growth : ℕ → ℕ → ℕ
calculate_growth current element_size =
    if ltb (size_max / growth_numerator) current
    then 0
    else let scaled = current * growth_numerator / growth_denominator in
      let new_capacity = if leb scaled current then current + 1 else scaled in
      if ltb (size_max / element_size) new_capacity then 0 else new_capacity

-- the `while` loop of `calculate_growth_for`, on fuel; `none` when the fuel runs out
pub grow_until : ℕ → ℕ → ℕ → ℕ → Option ℕ
grow_until zero new_capacity min_capacity element_size = none
grow_until (suc fuel) new_capacity min_capacity element_size =
    let grown = calculate_growth new_capacity element_size in
    let rest = grow_until fuel grown min_capacity element_size in
    if ltb new_capacity min_capacity
    then (if grown == 0 then some min_capacity else rest)
    else some new_capacity

pub calculate_growth_for : ℕ → ℕ → ℕ → Option ℕ
calculate_growth_for current min_capacity element_size =
    if ltb (size_max / element_size) min_capacity
    then some 0
    else grow_until (suc (min_capacity - current)) current min_capacity element_size

-- `dynarray_t`
pub record DynArray {ℓ} (A : Type ℓ) : Type ℓ where
  pub slots : List (Option A)
  pub size : ℕ
  pub capacity : ℕ
  pub element_size : ℕ

module _ {ℓ} {A : Type ℓ} where
  -- What `realloc` leaves of the old block: the slots that fit, and unwritten ones above them.
  pub resize : ℕ → List (Option A) → List (Option A)
  resize zero slots = []
  resize (suc n) [] = none ∷ resize n []
  resize (suc n) (x ∷ slots) = x ∷ resize n slots

  -- `memcpy` of whole elements to the slots from `i` on
  pub copy_to : List (Option A) → ℕ → List A → List (Option A)
  copy_to slots i [] = slots
  copy_to slots i (x ∷ xs) = copy_to (set slots i (some x)) (i + 1) xs

  -- the element in slot `i`
  pub read_slot : List (Option A) → ℕ → Option A
  read_slot [] i = none
  read_slot (x ∷ slots) zero = x
  read_slot (x ∷ slots) (suc i) = read_slot slots i

  -- the structure that `dynarray_free` zeroes
  abbrev pub zeroed : DynArray A
  zeroed = record { slots = []; size = 0; capacity = 0; element_size = 0 }

  pub free : Option (DynArray A) → Option (DynArray A)
  free none = none
  free (some arr) = some zeroed

  -- The element at the address returned; `none` is NULL, and a slot that was never written.
  pub get : Option (DynArray A) → ℕ → Option A
  unfolding read_slot
  get none index = none
  get (some arr) index = if leb arr.size index then none else read_slot arr.slots index

  pub write : Option (DynArray A) → ℕ → Option A → Bool × Option (DynArray A)
  write none index element = (false, none)
  write (some arr) index none = (false, some arr)
  write (some arr) index (some x) =
      if leb arr.size index
      then (false, some arr)
      else (true, some (record arr { slots = set arr.slots index (some x) }))

  pub size_of : Option (DynArray A) → ℕ
  size_of none = 0
  size_of (some arr) = arr.size

  pub capacity_of : Option (DynArray A) → ℕ
  capacity_of none = 0
  capacity_of (some arr) = arr.capacity

  pub is_empty : Option (DynArray A) → Bool
  is_empty none = true
  is_empty (some arr) = arr.size == 0

  pub clear : Option (DynArray A) → Option (DynArray A)
  clear none = none
  clear (some arr) = some (record arr { size = 0 })

  -- the allocator
  module _ (grants : ℕ → Bool) where
    pub init : Option (DynArray A) → ℕ → ℕ → Bool × Option (DynArray A)
    init none element_size initial_capacity = (false, none)
    init (some arr) element_size initial_capacity =
        if element_size == 0
        then (false, some arr)
        else let capacity = if initial_capacity == 0 then default_capacity else initial_capacity in
          if ltb (size_max / element_size) capacity
          then (false, some arr)
          else if not (grants (element_size * capacity))
          then (false, some arr)
          else (
            true,
            some (record {
              slots = replicate capacity none;
              size = 0;
              capacity = capacity;
              element_size = element_size;
            }),
          )

    pub reserve_at : DynArray A → ℕ → Bool × DynArray A
    unfolding resize
    reserve_at arr requested =
        let new_capacity = if ltb requested arr.size then arr.size else requested in
        if new_capacity == arr.capacity
        then (true, arr)
        else if ltb (size_max / arr.element_size) new_capacity
        then (false, arr)
        else if not (grants (new_capacity * arr.element_size)) && ltb 0 new_capacity
        then (false, arr)
        else (true, record arr { slots = resize new_capacity arr.slots; capacity = new_capacity })

    pub reserve : Option (DynArray A) → ℕ → Bool × Option (DynArray A)
    unfolding reserve_at
    reserve none requested = (false, none)
    reserve (some arr) requested = let (done, arr') = reserve_at arr requested in (done, some arr')

    pub shrink_to_fit : Option (DynArray A) → Bool × Option (DynArray A)
    unfolding reserve
    shrink_to_fit none = (false, none)
    shrink_to_fit (some arr) =
        reserve (some arr) (if ltb default_capacity arr.size then arr.size else default_capacity)

    -- the growth of `dynarray_push` when the array is full
    pub make_room : DynArray A → Bool × DynArray A
    make_room arr =
        if leb arr.capacity arr.size
        then (let new_capacity = calculate_growth arr.capacity arr.element_size in
            if new_capacity == 0 then (false, arr) else reserve_at arr new_capacity)
        else (true, arr)

    pub push : Option (DynArray A) → Option A → Bool × Option (DynArray A)
    push none element = (false, none)
    push (some arr) none = (false, some arr)
    push (some arr) (some x) =
        let (done, arr') = make_room arr in
        if done
        then (
          true,
          some (record arr' { slots = set arr'.slots arr'.size (some x); size = arr'.size + 1 }),
        )
        else (false, some arr')

    -- `elements` and `count` are the list; the outer `none` of the result is a lack of fuel.
    pub make_room_for : DynArray A → ℕ → Option (Bool × DynArray A)
    make_room_for arr required =
        if ltb arr.capacity required
        then elim (calculate_growth_for arr.capacity required arr.element_size) [
          | none ↦ none
          | some new_capacity ↦
              some (if new_capacity == 0 then (false, arr) else reserve_at arr new_capacity)
        ]
        else some (true, arr)

    pub push_n : Option (DynArray A) → Option (List A) → Option (Bool × Option (DynArray A))
    push_n none elements = some (false, none)
    push_n (some arr) none = some (false, some arr)
    push_n (some arr) (some xs) =
        let count = length xs in
        if count == 0
        then some (true, some arr)
        else if ltb (size_max - arr.size) count
        then some (false, some arr)
        else let required = arr.size + count in
          elim (make_room_for arr required) [
            | none ↦ none
            | some (false, arr') ↦ some (false, some arr')
            | some (true, arr') ↦ some (
              true,
              some (record arr' { slots = copy_to arr'.slots arr'.size xs; size = required }),
            )
          ]

    -- the shrinking at the end of `dynarray_pop`; a refusal of `realloc` is ignored
    pub shrink_after_pop : DynArray A → DynArray A
    unfolding resize
    shrink_after_pop arr =
        if ltb default_capacity arr.capacity && ltb arr.size (arr.capacity / shrink_threshold)
        then (let half = arr.capacity / growth_denominator in
            let new_capacity = if ltb half default_capacity then default_capacity else half in
            if grants (new_capacity * arr.element_size)
            then record arr { slots = resize new_capacity arr.slots; capacity = new_capacity }
            else arr)
        else arr

    -- The result, what goes to `out_element` (if it is not NULL), and the array.
    pub pop : Option (DynArray A) → Bool × Option A × Option (DynArray A)
    pop none = (false, none, none)
    pop (some arr) =
        if arr.size == 0
        then (false, none, some arr)
        else let arr' = record arr { size = arr.size - 1 } in
          (true, read_slot arr'.slots arr'.size, some (shrink_after_pop arr'))
