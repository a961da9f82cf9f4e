-- ===== src/Strsim.antt =====
-- src/strsim.c: the Levenshtein distance. A string is the list of its bytes, NULL is `none`, and
-- `writable` tells that `out_distance` is not NULL. The two rows of the table are lists; the row
-- that the code overwrites in place is built anew, entry by entry, as the inner loop fills it.
pub mod Edit
pub mod Table
mod Tests
use solidc.Base.{
  ℕ, ◌+◌, ◌*◌, ◌%◌, ◌^◌, Bool, true, false, not, ◌||◌, Option, none, some, List, [], ◌∷◌, ltb, ◌==◌,
  if◌then◌else◌, length,
}

pub min2 : ℕ → ℕ → ℕ
min2 a b = if ltb a b then a else b

pub min3 : ℕ → ℕ → ℕ → ℕ
min3 a b c = min2 a (min2 b c)

-- the return value, with what goes to `*out_distance`
pub data Reply : Type 0 where
  distance : ℕ → Reply
  invalid no_memory : Reply

-- The inner loop from `i` on: `diagonal` is `prev[i - 1]`, `left` is `curr[i - 1]`, and the lists
-- are `a[i - 1 ..]` and `prev[i ..]`. The result is `curr[i ..]`.
pub fill_row : ℕ → ℕ → ℕ → List ℕ → List ℕ → List ℕ
fill_row bj diagonal left [] prev = []
fill_row bj diagonal left (ai ∷ a) [] = []
fill_row bj diagonal left (ai ∷ a) (above ∷ prev) =
    let sub_cost = if ai == bj then 0 else 1 in
    let entry = min3 (above + 1) (left + 1) (diagonal + sub_cost) in
    entry ∷ fill_row bj above entry a prev

-- The outer loop from `j` on, over `b[j - 1 ..]`; the result is the last row.
pub fill_table : List ℕ → ℕ → List ℕ → ℕ → List ℕ → ℕ × List ℕ
fill_table a j [] corner prev = (corner, prev)
fill_table a j (bj ∷ b) corner prev = fill_table a (j + 1) b j (fill_row bj corner j a prev)

-- `prev[i] = i` for `i` above 0; entry 0 of a row is kept apart, as `corner`.
pub first_row : ℕ → List ℕ → List ℕ
first_row i [] = []
first_row i (x ∷ a) = i ∷ first_row (i + 1) a

-- `prev[len_a]`
pub last_entry : ℕ → List ℕ → ℕ
last_entry corner [] = corner
last_entry corner (x ∷ row) = last_entry x row

-- The computation with the strings in order, `a` no longer than `b`.
pub distance_of : (ℕ → Bool) → List ℕ → List ℕ → Reply
distance_of grants a b =
    if length a == 0
    then distance (length b)
    else if grants (2 * (length a + 1) * 8 % 2 ^ 64)
    then (let (corner, row) = fill_table a 1 b 0 (first_row 1 a) in
        distance (last_entry corner row))
    else no_memory

pub strsim_levenshtein : (ℕ → Bool) → Option (List ℕ) → Option (List ℕ) → Bool → Reply
strsim_levenshtein grants none b writable = invalid
strsim_levenshtein grants (some a) none writable = invalid
strsim_levenshtein grants (some a) (some b) writable =
    if not writable
    then invalid
    else if ltb (length b) (length a)
    then distance_of grants b a
    else distance_of grants a b
