-- ===== src/Strsim/Edit.antt =====
-- Edit scripts, the meaning of the Levenshtein distance.
use native.Mathlib.Nat.{zero-add, suc-add, add-zero}
use native.Mathlib.Numerals.{add-one}
use mathlib.Core.List.{reverse, reverse-cons}
use solidc.Base.{
  ℕ, suc, ◌+◌, ◌≤◌, ◌≡◌, refl, ◌⊎◌, inl, inr, List, [], ◌∷◌, ◌++◌, append-nil, arith, ◌==◌, ==→eq,
  if◌then◌else◌, length, max, Bool-cases,
}
use solidc.Strsim.{min2, min3}

-- `Edit a b n`: `n` deletions, insertions and substitutions of a byte turn `a` into `b`.
pub data Edit : List ℕ → List ℕ → ℕ → Type 0 where
  done : Edit [] [] 0
  delete : {a b : List ℕ} {n : ℕ} (x : ℕ) → Edit a b n → Edit (x ∷ a) b (suc n)
  insert : {a b : List ℕ} {n : ℕ} (y : ℕ) → Edit a b n → Edit a (y ∷ b) (suc n)
  keep : {a b : List ℕ} {n : ℕ} (x : ℕ) → Edit a b n → Edit (x ∷ a) (x ∷ b) n
  substitute : {a b : List ℕ} {n : ℕ} (x y : ℕ) → Edit a b n → Edit (x ∷ a) (y ∷ b) (suc n)

pub Edit-sym : {a b : List ℕ} {n : ℕ} → Edit a b n → Edit b a n
Edit-sym done = done
Edit-sym (delete x e) = insert x (Edit-sym e)
Edit-sym (insert y e) = delete y (Edit-sym e)
Edit-sym (keep x e) = keep x (Edit-sym e)
Edit-sym (substitute x y e) = substitute y x (Edit-sym e)

-- Scripts in a row.
pub Edit-append :
    {a b c d : List ℕ} {n m : ℕ} → Edit a b n → Edit c d m → Edit (a ++ c) (b ++ d) (n + m)
Edit-append {n} {m} done f = rw zero-add f
Edit-append (delete x e) f = rw suc-add (delete x (Edit-append e f))
Edit-append (insert y e) f = rw suc-add (insert y (Edit-append e f))
Edit-append (keep x e) f = keep x (Edit-append e f)
Edit-append (substitute x y e) f = rw suc-add (substitute x y (Edit-append e f))

-- A script backwards.
pub Edit-reverse : {a b : List ℕ} {n : ℕ} → Edit a b n → Edit (reverse a) (reverse b) n
Edit-reverse done = done
Edit-reverse (delete {a} {b} {n} x e) =
    let p : Edit (reverse a ++ x ∷ []) (reverse b ++ []) (n + 1) =
      Edit-append (Edit-reverse e) (delete x done) in
    rw (reverse-cons x a) (rw (append-nil, add-one) at p)
Edit-reverse (insert {a} {b} {n} y e) =
    let p : Edit (reverse a ++ []) (reverse b ++ y ∷ []) (n + 1) =
      Edit-append (Edit-reverse e) (insert y done) in
    rw (reverse-cons y b) (rw (append-nil, add-one) at p)
Edit-reverse (keep {a} {b} {n} x e) =
    let p : Edit (reverse a ++ x ∷ []) (reverse b ++ x ∷ []) (n + 0) =
      Edit-append (Edit-reverse e) (keep x done) in
    rw (reverse-cons x a, reverse-cons x b) (rw add-zero at p)
Edit-reverse (substitute {a} {b} {n} x y e) =
    let p : Edit (reverse a ++ x ∷ []) (reverse b ++ y ∷ []) (n + 1) =
      Edit-append (Edit-reverse e) (substitute x y done) in
    rw (reverse-cons x a, reverse-cons y b) (rw add-one at p)

-- The recursion on both strings that the table of src/strsim.c tabulates.
abbrev pub cost : ℕ → ℕ → ℕ
cost x y = if x == y then 0 else 1

unfoldable pub lev : List ℕ → List ℕ → ℕ
lev [] b = length b
lev (x ∷ a) [] = suc (length a)
lev (x ∷ a) (y ∷ b) = min3 (lev (x ∷ a) b + 1) (lev a (y ∷ b) + 1) (lev a b + cost x y)

lev-nil : (a : List ℕ) → lev a [] ≡ length a
unfolding lev
lev-nil [] = refl
lev-nil (x ∷ a) = refl

min3-cases : (p q r : ℕ) → (min3 p q r ≡ p) ⊎ (min3 p q r ≡ q) ⊎ (min3 p q r ≡ r)
unfolding min3 min2
min3-cases p q r = ground arith

min3-le : (p q r : ℕ) → (min3 p q r ≤ p) × (min3 p q r ≤ q) × (min3 p q r ≤ r)
unfolding min3 min2
min3-le p q r = ground arith

-- One step at the head of both strings.
aligned : (x y : ℕ) {a b : List ℕ} {n : ℕ} → Edit a b n → Edit (x ∷ a) (y ∷ b) (n + cost x y)
aligned x y {a} {b} {n} e = elim (Bool-cases (x == y)) [
  | inl same ↦ rw (same, add-zero, ← ==→eq x y same) (keep x e)
  | inr other ↦ rw (other, add-one) (substitute x y e)
]

-- The recursion's value is the number of steps of a script.
pub lev-Edit : (a b : List ℕ) → Edit a b (lev a b)
unfolding lev
lev-Edit [] [] = done
lev-Edit [] (y ∷ b) = insert y (lev-Edit [] b)
lev-Edit (x ∷ a) [] = delete x (rw lev-nil at (lev-Edit a []))
lev-Edit (x ∷ a) (y ∷ b) =
    elim (min3-cases (lev (x ∷ a) b + 1) (lev a (y ∷ b) + 1) (lev a b + cost x y)) [
      | inl e ↦ rw (e, add-one) (insert y (lev-Edit (x ∷ a) b))
      | inr (inl e) ↦ rw (e, add-one) (delete x (lev-Edit a (y ∷ b)))
      | inr (inr e) ↦ rw e (aligned x y (lev-Edit a b))
    ]

lev-delete : (x : ℕ) (a b : List ℕ) → lev (x ∷ a) b ≤ lev a b + 1
unfolding lev
lev-delete x a [] = omega (arith, lev-nil a)
lev-delete x a (y ∷ b) =
    omega (arith, min3-le (lev (x ∷ a) b + 1) (lev a (y ∷ b) + 1) (lev a b + cost x y))

lev-insert : (y : ℕ) (a b : List ℕ) → lev a (y ∷ b) ≤ lev a b + 1
unfolding lev
lev-insert y [] b = omega arith
lev-insert y (x ∷ a) b =
    omega (arith, min3-le (lev (x ∷ a) b + 1) (lev a (y ∷ b) + 1) (lev a b + cost x y))

lev-aligned : (x y : ℕ) (a b : List ℕ) → lev (x ∷ a) (y ∷ b) ≤ lev a b + cost x y
unfolding lev
lev-aligned x y a b =
    omega (arith, min3-le (lev (x ∷ a) b + 1) (lev a (y ∷ b) + 1) (lev a b + cost x y))

-- No script is shorter.
pub lev-le : {a b : List ℕ} {n : ℕ} → Edit a b n → lev a b ≤ n
lev-le done = omega (arith, lev-nil [])
lev-le (delete {a} {b} x e) = omega (arith, lev-delete x a b, lev-le e)
lev-le (insert {a} {b} y e) = omega (arith, lev-insert y a b, lev-le e)
lev-le (keep {a} {b} x e) = ground (arith, lev-aligned x x a b, lev-le e)
lev-le (substitute {a} {b} x y e) = ground (arith, lev-aligned x y a b, lev-le e)

-- Any two strings are within the longer one's length.
pub lev-bound : (a b : List ℕ) → lev a b ≤ max (length a) (length b)
unfolding lev
lev-bound [] b = omega arith
lev-bound (x ∷ a) [] = omega arith
lev-bound (x ∷ a) (y ∷ b) =
    ground
      (arith, lev-bound a b, min3-le (lev (x ∷ a) b + 1) (lev a (y ∷ b) + 1) (lev a b + cost x y))
