-- ===== src/HashMap.antt =====
-- src/map.c: a hash map with open addressing and Robin Hood probing. A slot is empty or has its key,
-- its value and its distance from the initial bucket, DIB. The pointers of keys and values are of any
-- type, NULL is `none`. The functions that the map is configured with are parameters, and so are the
-- comparison of the load with its limit, which is done in floating point, and the allocator.
pub mod Probe
pub mod Slots
pub mod Insert
pub mod Lookup
pub mod Update
pub mod Resize
pub mod Table
pub mod Grow
pub mod Room
pub mod Assign
pub mod Set
pub mod Hole
pub mod Shift
pub mod Move
pub mod Remove
pub mod Erase
pub mod Store
pub mod Loop
pub mod Iterate
mod Tests
use Prim.Native.Nat.{bit_and, bit_or}
use solidc.Base.{
  ℕ, zero, suc, ◌+◌, ◌-◌, ◌*◌, ◌/◌, ◌%◌, ◌^◌, Bool, true, false, not, ◌&&◌, ◌||◌, Option, none,
  some, List, [], ◌∷◌, ◌++◌, ltb, leb, ◌==◌, if◌then◌else◌, size_max, length, get_or, set,
  replicate, max,
}

pub data Slot {ℓ} (K V : Type ℓ) : Type ℓ where
  empty : Slot K V
  entry : K → V → ℕ → Slot K V

-- `struct hash_map`
pub record HashMap {ℓ} (K V : Type ℓ) : Type ℓ where
  pub slots : List (Slot K V)
  pub size : ℕ
  pub capacity : ℕ

abbrev pub min_capacity : ℕ
min_capacity = 8

abbrev pub initial_map_size : ℕ
initial_map_size = 16

pub next_power_of_two : ℕ → ℕ
next_power_of_two n =
    if n == 0
    then 1
    else let a = n - 1 in
      let b = bit_or a (a / 2 ^ 1) in
      let c = bit_or b (b / 2 ^ 2) in
      let d = bit_or c (c / 2 ^ 4) in
      let e = bit_or d (d / 2 ^ 8) in
      let f = bit_or e (e / 2 ^ 16) in let g = bit_or f (f / 2 ^ 32) in (g + 1) % 2 ^ 64

pub calculate_new_capacity : ℕ → ℕ
calculate_new_capacity current =
    if ltb (size_max / 2) current
    then size_max
    else if ltb (current * 2 % 2 ^ 64) current
    then size_max
    else current * 2 % 2 ^ 64

-- `MapConfig`, with the floating-point type of max_load_factor as a parameter
pub record MapConfig {ℓ κ} (K : Type ℓ) (F : Type κ) : Type (ℓ ⊔ κ) where
  pub initial_capacity : ℕ
  pub max_load_factor : F
  pub key_compare : Option (K → K → Bool)

-- `map_create`, where `in_range` is the test of the load factor, 0.1 < f and f <= 0.95, and `map_bytes`
-- is the size of the structure with the platform's lock in it; the result is the map with the load factor
-- and the comparison that it keeps.
pub map_create {ℓ κ} :
    {K V : Type ℓ} {F : Type κ}
    → (in_range : F → Bool) (default_max_load_factor : F) (grants : ℕ → Bool) (map_bytes : ℕ)
    → Option (MapConfig K F)
    → Option (HashMap K V × F × (K → K → Bool))
map_create in_range default_max_load_factor grants map_bytes none = none
map_create in_range default_max_load_factor grants map_bytes (some config) =
    elim config.key_compare [
      | none ↦ none
      | some key_compare ↦
          let wanted =
            if ltb 0 config.initial_capacity
            then next_power_of_two config.initial_capacity
            else initial_map_size in
          let capacity = max min_capacity wanted in
          let max_load_factor =
            if in_range config.max_load_factor
            then config.max_load_factor
            else default_max_load_factor in
          if ltb (size_max / 2) capacity
          then none
          else if grants map_bytes && grants (capacity * 2 * 8) && grants (capacity * 8)
          then some (
            record { slots = replicate capacity empty; size = 0; capacity = capacity },
            max_load_factor,
            key_compare,
          )
          else none
    ]

-- How a round of loops that store an entry ends: in an empty slot, at an entry of the same key with
-- its old value, or not within the capacity.
pub data Stored {ℓ} (K V : Type ℓ) : Type ℓ where
  placed : List (Slot K V) → Stored K V
  updated : List (Slot K V) → V → Stored K V
  dropped : List (Slot K V) → Stored K V

module _ {ℓ} {K V : Type ℓ} where
  abbrev pub slot_at : List (Slot K V) → ℕ → Slot K V
  slot_at slots i = get_or slots i empty

  -- The loop of `map_set`, and that of `map_resize`, which has no test for an equal key: there
  -- `matches` is never true.
  pub store : (K → K → Bool) → ℕ → List (Slot K V) → ℕ → ℕ → K → V → ℕ → Stored K V
  store matches zero slots mask idx key value dist = dropped slots
  store matches (suc fuel) slots mask idx key value dist = elim (slot_at slots idx) [
    | empty ↦ placed (set slots idx (entry key value dist))
    | entry key' value' dist' ↦
        let robbed = set slots idx (entry key value dist) in
        let steal =
          store matches fuel robbed mask (bit_and (idx + 1) mask) key' value' (dist' + 1) in
        let pass = store matches fuel slots mask (bit_and (idx + 1) mask) key value (dist + 1) in
        if matches key' key
        then updated (set slots idx (entry key' value dist')) value'
        else if ltb dist' dist
        then steal
        else pass
  ]

  -- the loop of `map_get`, on what `capacity - dist` is
  pub get_loop : (K → K → Bool) → ℕ → List (Slot K V) → ℕ → ℕ → K → ℕ → Option V
  get_loop matches zero slots mask idx key dist = none
  get_loop matches (suc fuel) slots mask idx key dist = elim (slot_at slots idx) [
    | empty ↦ none
    | entry key' value' dist' ↦
        let rest = get_loop matches fuel slots mask (bit_and (idx + 1) mask) key (dist + 1) in
        if ltb dist' dist then none else if matches key' key then some value' else rest
  ]

  -- the search of `map_remove`
  pub position : (K → K → Bool) → ℕ → List (Slot K V) → ℕ → ℕ → K → ℕ → Option ℕ
  position matches zero slots mask idx key dist = none
  position matches (suc fuel) slots mask idx key dist = elim (slot_at slots idx) [
    | empty ↦ none
    | entry key' value' dist' ↦
        let rest = position matches fuel slots mask (bit_and (idx + 1) mask) key (dist + 1) in
        if ltb dist' dist then none else if matches key' key then some idx else rest
  ]

  -- The backward shift of `map_remove` on fuel, `none` when that runs out.
  pub shift_back : ℕ → List (Slot K V) → ℕ → ℕ → Option (List (Slot K V))
  shift_back zero slots mask hole = none
  shift_back (suc fuel) slots mask hole =
      let next = bit_and (hole + 1) mask in
      elim (slot_at slots next) [
        | empty ↦ some (set slots hole empty)
        | entry key value dist ↦
            let rest = shift_back fuel (set slots hole (entry key value (dist - 1))) mask next in
            if dist == 0 then some (set slots hole empty) else rest
      ]

module _ {ℓ} {K V : Type ℓ} (hash : K → ℕ → ℕ) where
  -- The loop of `map_resize` over the old slots: the new ones, and the new size.
  pub rehash : ℕ → ℕ → List (Slot K V) → List (Slot K V) → ℕ → List (Slot K V) × ℕ
  rehash capacity key_len [] slots size = (slots, size)
  rehash capacity key_len (empty ∷ old) slots size = rehash capacity key_len old slots size
  rehash capacity key_len (entry key value dist ∷ old) slots size =
      elim (store (λ a b. false) capacity slots (capacity - 1)
        (bit_and (hash key key_len) (capacity - 1)) key value 0) [
          | placed slots' ↦ rehash capacity key_len old slots' (size + 1)
          | updated slots' old_value ↦ rehash capacity key_len old slots' size
          | dropped slots' ↦ rehash capacity key_len old slots' size
        ]

  module _ (grants : ℕ → Bool) where
    pub map_resize : HashMap K V → ℕ → ℕ → Bool × HashMap K V
    map_resize m new_capacity key_len =
        if leb new_capacity m.capacity || ltb (size_max / 2) new_capacity
        then (false, m)
        else if grants (new_capacity * 2 * 8) && grants (new_capacity * 8)
        then (let (slots, size) =
              rehash new_capacity key_len m.slots (replicate new_capacity empty) 0 in
            (true, record { slots = slots; size = size; capacity = new_capacity }))
        else (false, m)

    module _ (overloaded : ℕ → ℕ → Bool) where
      -- the growth at the start of `map_set`
      pub make_room : HashMap K V → ℕ → Bool × HashMap K V
      make_room m key_len =
          if overloaded m.size m.capacity
          then (let new_cap = calculate_new_capacity m.capacity in
              if leb new_cap m.capacity then (false, m) else map_resize m new_cap key_len)
          else (true, m)

  -- The rest of `map_set`: the result, the map, and the value that `value_free` is called with.
  pub set_in : (K → K → Bool) → HashMap K V → K → ℕ → V → Bool × Option (HashMap K V) × Option V
  set_in key_compare m key key_len value =
      elim (store key_compare m.capacity m.slots (m.capacity - 1)
        (bit_and (hash key key_len) (m.capacity - 1)) key value 0) [
          | placed slots ↦ (true, some (record m { slots = slots; size = m.size + 1 }), none)
          | updated slots old ↦ (true, some (record m { slots = slots }), some old)
          | dropped slots ↦ (false, some (record m { slots = slots }), none)
        ]

  module _ (grants : ℕ → Bool) (overloaded : ℕ → ℕ → Bool) (key_compare : K → K → Bool) where
    pub map_set : Option (HashMap K V) → Option K → ℕ → V → Bool × Option (HashMap K V) × Option V
    map_set none key key_len value = (false, none, none)
    map_set (some m) none key_len value = (false, some m, none)
    map_set (some m) (some key) key_len value =
        let (room, m') = make_room grants overloaded m key_len in
        if room then set_in key_compare m' key key_len value else (false, some m', none)

  module _ (key_compare : K → K → Bool) where
    pub map_get : Option (HashMap K V) → Option K → ℕ → Option V
    map_get none key key_len = none
    map_get (some m) none key_len = none
    map_get (some m) (some key) key_len =
        get_loop key_compare m.capacity m.slots (m.capacity - 1)
          (bit_and (hash key key_len) (m.capacity - 1)) key 0

    -- The result, the map, and the slot whose key and value are freed; the outer `none` is a lack of
    -- fuel.
    pub map_remove :
        Option (HashMap K V) → Option K → ℕ → Option (Bool × Option (HashMap K V) × Slot K V)
    map_remove none key key_len = some (false, none, empty)
    map_remove (some m) none key_len = some (false, some m, empty)
    map_remove (some m) (some key) key_len =
        elim (position key_compare m.capacity m.slots (m.capacity - 1)
          (bit_and (hash key key_len) (m.capacity - 1)) key 0) [
            | none ↦ some (false, some m, empty)
            | some pos ↦ elim (shift_back (suc m.capacity) m.slots (m.capacity - 1) pos) [
              | none ↦ none
              | some slots ↦
                  some (
                    true,
                    some (record m { slots = slots; size = m.size - 1 }),
                    slot_at m.slots pos,
                  )
            ]
          ]

module _ {ℓ} {K V : Type ℓ} where
  pub map_length : HashMap K V → ℕ
  map_length m = m.size

  -- The loop of `map_next` from `index` on: the entry and the next index.
  pub next_loop : ℕ → List (Slot K V) → ℕ → Option (K × V) × ℕ
  next_loop zero slots index = (none, index)
  next_loop (suc fuel) slots index = elim (slot_at slots index) [
    | empty ↦ next_loop fuel slots (index + 1)
    | entry key value dist ↦ (some (key, value), index + 1)
  ]

  pub map_next : HashMap K V → ℕ → Option (K × V) × ℕ
  map_next m index =
      let found = next_loop (m.capacity - index) m.slots index in
      if ltb index m.capacity then found else (none, m.capacity)
