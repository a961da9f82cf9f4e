-- ===== src/Strsim/Table.antt =====
-- The table of `strsim_levenshtein` of src/strsim.c against edit scripts.
use mathlib.Core.List.{reverse, reverse-reverse, reverse-cons}
use mathlib.Core.Path.{ap₂}
use solidc.Base.{
  ℕ, suc, ◌+◌, ◌*◌, ◌%◌, ◌^◌, ◌≤◌, ◌≡◌, refl, sym, ap, ◌∙◌, ◌⊎◌, inl, inr, Bool, true, false, some,
  List, [], ◌∷◌, ◌++◌, append-nil, append_assoc, arith, ltb, ◌==◌, length, max, min, Bool-cases,
  tests,
}
use solidc.Strsim.{
  fill_row, fill_table, first_row, last_entry, distance_of, distance, no_memory, strsim_levenshtein,
}
use solidc.Strsim.Edit.{Edit, Edit-sym, Edit-reverse, lev, lev-Edit, lev-le, lev-bound}

lev-nil_left : (b : List ℕ) → lev [] b ≡ length b
unfolding lev
lev-nil_left b = refl

reverse-cons_append :
    (x : ℕ) (a before : List ℕ) → reverse a ++ (x ∷ before) ≡ reverse (x ∷ a) ++ before
reverse-cons_append x a before = rw reverse-cons (sym (append_assoc (reverse a) (x ∷ []) before))

-- The row of the table for a prefix of `b`, reversed: its entries for the prefixes of `a` that end
-- in the bytes of the list, where `before` is reversed in front of them.
abbrev row_of : List ℕ → List ℕ → List ℕ → List ℕ
row_of before [] seen = []
row_of before (x ∷ a) seen = lev (x ∷ before) seen ∷ row_of (x ∷ before) a seen

fill_row_lem :
    (y : ℕ) (before a seen : List ℕ)
    → fill_row y (lev before seen) (lev before (y ∷ seen)) a (row_of before a seen)
      ≡ row_of before a (y ∷ seen)
unfolding fill_row lev
fill_row_lem y before [] seen = refl
fill_row_lem y before (x ∷ a) seen =
    ap (λ r. lev (x ∷ before) (y ∷ seen) ∷ r) (fill_row_lem y (x ∷ before) a seen)

first_row_lem :
    (i : ℕ) (before a : List ℕ) → i ≡ length before + 1 → first_row i a ≡ row_of before a []
unfolding first_row lev
first_row_lem i before [] e = refl
first_row_lem i before (x ∷ a) e =
    ap₂ ◌∷◌ (omega arith) (first_row_lem (i + 1) (x ∷ before) a (omega arith))

last_entry_lem :
    (before a seen : List ℕ)
    → last_entry (lev before seen) (row_of before a seen) ≡ lev (reverse a ++ before) seen
unfolding last_entry
last_entry_lem before [] seen = refl
last_entry_lem before (x ∷ a) seen =
    last_entry_lem (x ∷ before) a seen ∙ ap (λ t. lev t seen) (reverse-cons_append x a before)

fill_table_lem :
    (a b seen : List ℕ) (j : ℕ)
    → j ≡ length seen + 1
    → fill_table a j b (lev [] seen) (row_of [] a seen)
      ≡ (lev [] (reverse b ++ seen), row_of [] a (reverse b ++ seen))
unfolding fill_table
fill_table_lem a [] seen j e = refl
fill_table_lem a (y ∷ b) seen j e =
    ap (λ t. fill_table a (j + 1) b t (fill_row y (lev [] seen) t a (row_of [] a seen))) next
    ∙ ap (λ r. fill_table a (j + 1) b (lev [] (y ∷ seen)) r) (fill_row_lem y [] a seen)
    ∙ fill_table_lem a b (y ∷ seen) (j + 1) (omega arith)
    ∙ ap (λ t. (lev [] t, row_of [] a t)) (reverse-cons_append y b seen)
  where
    next : j ≡ lev [] (y ∷ seen)
    next = omega (arith, lev-nil_left (y ∷ seen))

-- The table ends with the recursion's value on the strings backwards.
last_of_table :
    (a b : List ℕ)
    → (let (corner, row) = fill_table a 1 b 0 (first_row 1 a) in last_entry corner row)
      ≡ lev (reverse a) (reverse b)
last_of_table a b =
    rw (first_row_lem 1 [] a (omega arith), table, last_entry_lem [] a (reverse b), append-nil)
  where
    table : fill_table a 1 b 0 (row_of [] a []) ≡ (lev [] (reverse b), row_of [] a (reverse b))
    table =
        ap (λ t. fill_table a 1 b t (row_of [] a [])) (sym (lev-nil_left []))
        ∙ fill_table_lem a b [] 1 (omega arith)
        ∙ ap (λ t. (lev [] t, row_of [] a t)) (append-nil (reverse b))

-- `n` is the least number of steps from `a` to `b`.
pub record IsDistance (a b : List ℕ) (n : ℕ) : Type 0 where
  pub script : Edit a b n
  pub least : (m : ℕ) → Edit a b m → n ≤ m

lev-reverse : (a b : List ℕ) → IsDistance a b (lev (reverse a) (reverse b))
lev-reverse a b = record {
  script =
      rw (reverse-reverse a, reverse-reverse b) at
        (Edit-reverse (lev-Edit (reverse a) (reverse b)));
  least = λ m e. lev-le (Edit-reverse e);
}

abbrev row_bytes : ℕ → ℕ
row_bytes n = 2 * (n + 1) * 8 % 2 ^ 64

-- The distance between the empty string and another.
IsDistance-nil : (b : List ℕ) → IsDistance [] b (length b)
IsDistance-nil b = record {
  script = rw lev-nil_left at (lev-Edit [] b);
  least = λ m e. rw (← lev-nil_left b) (lev-le e);
}

distance_of_lem :
    (grants : ℕ → Bool) (a b : List ℕ)
    → ((n : ℕ) × (distance_of grants a b ≡ distance n) × IsDistance a b n)
      ⊎ ((distance_of grants a b ≡ no_memory) × (grants (row_bytes (length a)) ≡ false))
unfolding distance_of
distance_of_lem grants [] b = inl (length b, refl, IsDistance-nil b)
distance_of_lem grants (x ∷ a) b = elim (Bool-cases (grants (row_bytes (suc (length a))))) [
  | inl granted ↦ inl (
    lev (reverse (x ∷ a)) (reverse b),
    rw (nonzero, granted) (ap distance (last_of_table (x ∷ a) b)),
    lev-reverse (x ∷ a) b,
  )
  | inr refused ↦ inr (rw (nonzero, refused), refused)
]
  where
    nonzero : (suc (length a) == 0) ≡ false
    nonzero = ground arith

IsDistance-sym : {a b : List ℕ} {n : ℕ} → IsDistance a b n → IsDistance b a n
IsDistance-sym d = record { script = Edit-sym d.script; least = λ m e. d.least m (Edit-sym e) }

-- `strsim_levenshtein` returns the least number of deletions, insertions and substitutions of a
-- byte that turn one string into the other, or reports a lack of memory, when the allocator refuses
-- the two rows for the shorter string.
pub strsim_levenshtein_lem :
    (grants : ℕ → Bool) (a b : List ℕ)
    → ((n : ℕ) × (strsim_levenshtein grants (some a) (some b) true ≡ distance n) × IsDistance a b n)
      ⊎ ((strsim_levenshtein grants (some a) (some b) true ≡ no_memory)
          × (grants (row_bytes (min (length a) (length b))) ≡ false))
unfolding strsim_levenshtein
strsim_levenshtein_lem grants a b = elim (Bool-cases (ltb (length b) (length a))) [
  | inl swap ↦ elim (distance_of_lem grants b a) [
    | inl (n, e, d) ↦ inl (n, rw swap e, IsDistance-sym d)
    | inr (e, refused) ↦ inr (rw swap e, rw (shorter swap) refused)
  ]
  | inr in_order ↦ elim (distance_of_lem grants a b) [
    | inl (n, e, d) ↦ inl (n, rw in_order e, d)
    | inr (e, refused) ↦ inr (rw in_order e, rw (longer in_order) refused)
  ]
]
  where
    shorter : ltb (length b) (length a) ≡ true → min (length a) (length b) ≡ length b
    shorter h = omega tests

    longer : ltb (length b) (length a) ≡ false → min (length a) (length b) ≡ length a
    longer h = omega tests

-- A distance is at most the length of the longer string.
pub distance-le-length :
    (grants : ℕ → Bool) (a b : List ℕ) (n : ℕ)
    → strsim_levenshtein grants (some a) (some b) true ≡ distance n
    → n ≤ max (length a) (length b)
distance-le-length grants a b n h = elim (strsim_levenshtein_lem grants a b) [
  | inl (m, e, d) ↦ omega (arith, d.least (lev a b) (lev-Edit a b), lev-bound a b, same m e)
  | inr (e, refused) ↦ cc
]
  where
    same : (m : ℕ) → strsim_levenshtein grants (some a) (some b) true ≡ distance m → n ≡ m
    same m e = cc
