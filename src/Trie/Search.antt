-- ===== src/Trie/Search.antt =====
-- The binary search of src/trie.c, and the sorted insertion.
use solidc.Base.{
  ℕ, zero, suc, ◌+◌, ◌-◌, ◌/◌, ◌≤◌, ◌<◌, ◌≡◌, ◌≢◌, inl, inr, Option, none, some, List, [], ◌∷◌,
  arith, ltb, ◌==◌, length, get_or, Bool-cases, tests, ==→ne, ==→eq, dec_lt,
}
use solidc.Trie.{search_loop, slot_from}

-- every entry of `xs` is above `x`
abbrev pub Above : ℕ → List ℕ → Type 0
Above x [] = Unit
Above x (y ∷ ys) = (x < y) × Above x ys

abbrev pub IsSorted : List ℕ → Type 0
IsSorted [] = Unit
IsSorted (x ∷ xs) = Above x xs × IsSorted xs

Above-get_or : (x : ℕ) (xs : List ℕ) (i : ℕ) → Above x xs → i < length xs → x < get_or xs i 0
Above-get_or x [] i a h = absurd (omega arith)
Above-get_or x (y ∷ ys) zero a h = a.0
Above-get_or x (y ∷ ys) (suc i) a h = Above-get_or x ys i a.1 (omega arith)

pub get_or-lt :
    (xs : List ℕ) (i j : ℕ) → IsSorted xs → i < j → j < length xs → get_or xs i 0 < get_or xs j 0
get_or-lt [] i j s h k = absurd (omega arith)
get_or-lt (x ∷ xs) i zero s h k = absurd (omega arith)
get_or-lt (x ∷ xs) zero (suc j) s h k = Above-get_or x xs j s.0 (omega arith)
get_or-lt (x ∷ xs) (suc i) (suc j) s h k = get_or-lt xs i j s.1 (omega arith) (omega arith)

pub get_or-le :
    (xs : List ℕ) (i j : ℕ) → IsSorted xs → i ≤ j → j < length xs → get_or xs i 0 ≤ get_or xs j 0
get_or-le xs i j s h k = elim (dec_lt i j) [
  | yes q ↦ omega (arith, get_or-lt xs i j s q k)
  | no q ↦ let e : i ≡ j = omega arith in rw e (omega arith)
]

-- The answer is the place of `c`, or `c` is nowhere.
abbrev pub Finds : List ℕ → ℕ → Option ℕ → Type 0
Finds xs c (some i) = (i < length xs) × (get_or xs i 0 ≡ c)
Finds xs c none = (i : ℕ) → i < length xs → get_or xs i 0 ≢ c

module _ (xs : List ℕ) (c : ℕ) (sorted : IsSorted xs) where
  -- `c` can only stand between `lo` and `end`.
  pub search_loop-Finds :
      (fuel lo end : ℕ)
      → end < fuel + lo
      → 0 < fuel
      → end ≤ length xs
      → ((i : ℕ) → i < lo → i < length xs → get_or xs i 0 ≢ c)
      → ((i : ℕ) → end ≤ i → i < length xs → get_or xs i 0 ≢ c)
      → Finds xs c (search_loop fuel xs c lo end)
  unfolding search_loop
  search_loop-Finds zero lo end f p h below above = elim p [ ]
  search_loop-Finds (suc fuel) lo end f p h below above = elim (Bool-cases (ltb lo end)) [
    | inr done ↦
        rw done
          (λ i hi. elim (dec_lt i lo) [ yes q ↦ below i q hi | no q ↦ above i (omega tests) hi ])
    | inl more ↦ elim (Bool-cases (get_or xs mid 0 == c)) [
      | inl hit ↦ rw (more, hit) (omega tests, ==→eq (get_or xs mid 0) c hit)
      | inr miss ↦ elim (Bool-cases (ltb (get_or xs mid 0) c)) [
        | inl small ↦
            rw (more, miss, small)
              (search_loop-Finds fuel (mid + 1) end (omega tests) (omega tests) h
                (λ i q hi e.
                  absurd (omega (tests, get_or-le xs i mid sorted (omega arith) (omega tests))))
                above)
        | inr big ↦
            rw (more, miss, big)
              (search_loop-Finds fuel lo mid (omega tests) (omega tests) (omega tests) below
                (λ i q hi e.
                  absurd (
                    omega (tests, ==→ne (get_or xs mid 0) c miss, get_or-le xs mid i sorted q hi))))
      ]
    ]
  ]
    where
      mid : ℕ
      mid = (lo + (end - 1)) / 2

-- The insertion stops behind the bytes up to `c`, and before those above it.
abbrev pub IsSlot : List ℕ → ℕ → ℕ → Type 0
IsSlot xs c pos =
    (pos ≤ length xs)
    × ((i : ℕ) → i < pos → get_or xs i 0 ≤ c)
    × ((i : ℕ) → pos ≤ i → i < length xs → c < get_or xs i 0)

slot_from-IsSlot :
    (pos : ℕ) (xs : List ℕ) (c : ℕ)
    → IsSorted xs
    → pos ≤ length xs
    → ((i : ℕ) → pos ≤ i → i < length xs → c < get_or xs i 0)
    → IsSlot xs c (slot_from pos xs c)
unfolding slot_from
slot_from-IsSlot zero xs c s h above = (omega arith, λ i q. absurd (omega arith), above)
slot_from-IsSlot (suc pos) xs c s h above = elim (Bool-cases (ltb c (get_or xs pos 0))) [
  | inl larger ↦ rw larger (
      slot_from-IsSlot pos xs c s (omega arith)
        (λ i q hi. omega (tests, get_or-le xs pos i s q hi)))
  | inr fits ↦ rw fits (h, λ i q. omega (tests, get_or-le xs i pos s (omega arith) h), above)
]

pub slot_from_lem : (xs : List ℕ) (c : ℕ) → IsSorted xs → IsSlot xs c (slot_from (length xs) xs c)
slot_from_lem xs c s =
    slot_from-IsSlot (length xs) xs c s (omega arith) (λ i q hi. absurd (omega arith))

-- the bytes after the insertion
abbrev pub insert_at : List ℕ → ℕ → ℕ → List ℕ
insert_at xs zero c = c ∷ xs
insert_at [] (suc pos) c = []
insert_at (x ∷ xs) (suc pos) c = x ∷ insert_at xs pos c

Above-of_get_or : (c : ℕ) (xs : List ℕ) → ((i : ℕ) → i < length xs → c < get_or xs i 0) → Above c xs
Above-of_get_or c [] h = tt
Above-of_get_or c (x ∷ xs) h =
    (h 0 (omega arith), Above-of_get_or c xs (λ i q. h (suc i) (omega arith)))

Above-insert_at :
    (x : ℕ) (xs : List ℕ) (pos c : ℕ) → x < c → Above x xs → Above x (insert_at xs pos c)
Above-insert_at x xs zero c h a = (h, a)
Above-insert_at x [] (suc pos) c h a = tt
Above-insert_at x (y ∷ ys) (suc pos) c h a = (a.0, Above-insert_at x ys pos c h a.1)

-- A byte that is not there goes where the order stays.
pub IsSorted-insert_at :
    (xs : List ℕ) (pos c : ℕ)
    → IsSorted xs
    → IsSlot xs c pos
    → Finds xs c none
    → IsSorted (insert_at xs pos c)
IsSorted-insert_at xs zero c s slot fresh =
    (Above-of_get_or c xs (λ i q. slot.2 i (omega arith) q), s)
IsSorted-insert_at [] (suc pos) c s slot fresh = tt
IsSorted-insert_at (x ∷ xs) (suc pos) c s slot fresh = (
  Above-insert_at x xs pos c (omega (arith, slot.1 0 (omega arith), fresh 0 (omega arith))) s.0,
  IsSorted-insert_at xs pos c s.1
      (
        omega (arith, slot.0),
        λ i q. slot.1 (suc i) (omega arith),
        λ i q hi. slot.2 (suc i) (omega arith) (omega arith),
      )
      (λ i q. fresh (suc i) (omega arith)),
)
