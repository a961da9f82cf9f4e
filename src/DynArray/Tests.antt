-- ===== src/DynArray/Tests.antt =====
-- The functions of src/dynarray.c at concrete arrays.
use solidc.Base.{
  ℕ, ◌+◌, ◌*◌, ◌/◌, ◌^◌, ◌≤◌, ◌<◌, ◌≡◌, ◌≢◌, ◌↔◌, ◌⊎◌, refl, Bool, true, false, some, List, [], ◌∷◌,
  arith, size_max,
}
use solidc.DynArray
use solidc.DynArray.{DynArray, default_capacity}
use solidc.DynArray.Layout.{Holds}
use solidc.DynArray.Growth.{calculate_growth_for_lem}
use solidc.DynArray.Push.{init_lem, push_n_lem}
use solidc.DynArray.Pop.{pop_lem}

abbrev grants_all : ℕ → Bool
grants_all n = true

-- two elements of four bytes, and no room
abbrev full : DynArray ℕ
full = record { slots = some 7 ∷ some 9 ∷ []; size = 2; capacity = 2; element_size = 4 }

full-Holds : Holds full (7 ∷ 9 ∷ [])
full-Holds = record {
  spare = [];
  layout = refl;
  size_eq = refl;
  capacity_eq = refl;
  element_pos = omega arith;
  fits = omega arith;
}

push_grows : DynArray.push grants_all (some full) (some 5) ≡ (
  true,
  some (record { slots = some 7 ∷ some 9 ∷ some 5 ∷ []; size = 3; capacity = 3; element_size = 4 }),
)
unfolding DynArray.push DynArray.make_room DynArray.calculate_growth DynArray.reserve_at
    DynArray.resize
push_grows = refl

pop_takes_last :
    DynArray.pop grants_all (some full) ≡ (true, some 9, some (record full { size = 1 }))
unfolding DynArray.pop DynArray.read_slot DynArray.shrink_after_pop
pop_takes_last = refl

growth_steps :
    (DynArray.calculate_growth 0 4 ≡ 1)
    × (DynArray.calculate_growth 8 4 ≡ 12)
    × (DynArray.calculate_growth (2 ^ 63) 1 ≡ 0)
    × (DynArray.calculate_growth_for 8 20 4 ≡ some 27)
unfolding DynArray.calculate_growth DynArray.calculate_growth_for DynArray.grow_until
growth_steps = (refl, refl, refl, refl)

abbrev Pushed : DynArray ℕ → List ℕ → Type 0
Pushed arr xs = Unit

calculate_growth_for_lem_example :
    (r : ℕ) × (DynArray.calculate_growth_for 8 20 4 ≡ some r)
    × ((r ≡ 0) ↔ (size_max < 20 * 4))
    × (r ≢ 0 → (20 ≤ r) × (8 ≤ r) × (r * 4 ≤ size_max))
calculate_growth_for_lem_example =
    calculate_growth_for_lem 8 20 4 (omega arith) (omega arith) (omega arith)

init_lem_example :
    ((arr : DynArray ℕ) × (DynArray.init grants_all (some full) 4 0 ≡ (true, some arr))
      × Holds arr []
      × (arr.capacity ≡ 8)
      × (arr.element_size ≡ 4))
    ⊎ ((DynArray.init grants_all (some full) 4 0 ≡ (false, some full))
        × ((◌≡◌ {A = ℕ} 4 0) ⊎ (size_max / 4 < 8) ⊎ (true ≡ false)))
init_lem_example = init_lem grants_all full 4 0

push_n_lem_example :
    ((arr' : DynArray ℕ) × (DynArray.push_n grants_all (some full) (some (1 ∷ 2 ∷ []))
        ≡ some (true, some arr'))
      × Holds arr' (7 ∷ 9 ∷ 1 ∷ 2 ∷ []))
    ⊎ ((DynArray.push_n grants_all (some full) (some (1 ∷ 2 ∷ [])) ≡ some (false, some full))
        × (2 < 2 + 2))
push_n_lem_example = push_n_lem grants_all (1 ∷ 2 ∷ []) full-Holds

pop_lem_example :
    (arr' : DynArray ℕ) × (DynArray.pop grants_all (some full) ≡ (true, some 9, some arr'))
    × Holds arr' (7 ∷ [])
pop_lem_example = pop_lem grants_all (7 ∷ []) 9 full-Holds
