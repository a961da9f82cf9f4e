-- ===== src/DynArray/Growth.antt =====
-- The growth arithmetic of src/dynarray.c.
use solidc.Base.{
  ℕ, zero, suc, ◌+◌, ◌-◌, ◌*◌, ◌/◌, ◌≤◌, ◌<◌, ◌≡◌, refl, ◌≢◌, ◌↔◌, ◌⊎◌, inl, inr, some, arith, ltb,
  ◌==◌, size_max, Bool-cases, tests,
}
use solidc.DynArray.{calculate_growth, grow_until, calculate_growth_for}

-- The product of a quotient's lower bound.
pub mul-le_of_le_div : (a b n : ℕ) → 0 < b → a ≤ n / b → a * b ≤ n
mul-le_of_le_div a b n p h = grind arith

pub lt-mul_of_div_lt : (a b n : ℕ) → 0 < b → n / b < a → n < a * b
lt-mul_of_div_lt a b n p h = grind arith

-- `calculate_growth` returns 0, or a capacity above the current one whose size in bytes fits in
-- `size_t`.
pub calculate_growth_bounds :
    (current element_size : ℕ)
    → 0 < element_size
    → (calculate_growth current element_size ≡ 0)
      ⊎ ((current < calculate_growth current element_size)
          × (calculate_growth current element_size * element_size ≤ size_max))
unfolding calculate_growth
calculate_growth_bounds current element_size p = ground (
  arith,
  mul-le_of_le_div (current + 1) element_size size_max p,
  mul-le_of_le_div (current * 3 / 2) element_size size_max p,
)

module _ (min_capacity element_size : ℕ) (pos : 0 < element_size)
    (small : min_capacity ≤ size_max / element_size) where
  -- Each round grows, so the distance to `min_capacity` is enough fuel.
  grow_until_lem :
      (fuel current : ℕ)
      → min_capacity < fuel + current
      → 0 < fuel
      → current * element_size ≤ size_max
      → (r : ℕ) × (grow_until fuel current min_capacity element_size ≡ some r)
        × (min_capacity ≤ r)
        × (current ≤ r)
        × (r * element_size ≤ size_max)
  unfolding grow_until
  grow_until_lem zero current f h c = elim h [ ]
  grow_until_lem (suc fuel) current f h c = elim (Bool-cases (ltb current min_capacity)) [
    | inr done ↦ (current, rw done, omega tests, omega arith, c)
    | inl more ↦ elim (Bool-cases (calculate_growth current element_size == 0)) [
      | inl over ↦ (
        min_capacity,
        rw (more, over),
        omega arith,
        omega tests,
        mul-le_of_le_div min_capacity element_size size_max pos small,
      )
      | inr grown ↦
          let g : (current < calculate_growth current element_size)
              × (calculate_growth current element_size * element_size ≤ size_max) =
            ground (arith, calculate_growth_bounds current element_size pos) in
          let (r, e, lo, up, fit) =
            grow_until_lem fuel (calculate_growth current element_size) (omega tests) (omega tests)
              g.1 in
          (r, rw (more, grown) e, lo, omega arith, fit)
    ]
  ]

-- Enough fuel is given: `calculate_growth_for` always returns. A result of 0 says that the wanted
-- capacity does not fit in memory, any other is at least the wanted capacity and fits.
pub calculate_growth_for_lem :
    (current min_capacity element_size : ℕ)
    → 0 < element_size
    → 0 < min_capacity
    → current * element_size ≤ size_max
    → (r : ℕ) × (calculate_growth_for current min_capacity element_size ≡ some r)
      × ((r ≡ 0) ↔ (size_max < min_capacity * element_size))
      × (r ≢ 0 → (min_capacity ≤ r) × (current ≤ r) × (r * element_size ≤ size_max))
unfolding calculate_growth_for
calculate_growth_for_lem current min_capacity element_size p q c =
    elim (Bool-cases (ltb (size_max / element_size) min_capacity)) [
      | inl over ↦ (
        0,
        rw over,
        (λ _. lt-mul_of_div_lt min_capacity element_size size_max p (omega tests), λ _. refl),
        λ h. absurd (h refl),
      )
      | inr small ↦
          let (r, e, lo, up, fit) =
            grow_until_lem min_capacity element_size p (omega tests) (suc (min_capacity - current))
              current (omega arith) (omega arith) c in
          (
            r,
            rw small e,
            (
              λ z. absurd (omega arith),
              λ big. absurd (
                  omega
                    (arith, mul-le_of_le_div min_capacity element_size size_max p (omega tests))),
            ),
            λ _. (lo, up, fit),
          )
    ]
