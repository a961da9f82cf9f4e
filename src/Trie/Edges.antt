-- ===== src/Trie/Edges.antt =====
-- The children of a node of src/trie.c as a map from bytes.
use solidc.Base.{
  ℕ, zero, suc, ◌≤◌, ◌<◌, ◌≡◌, refl, ap, inl, inr, true, false, Option, none, some, List, [], ◌∷◌,
  arith, ◌==◌, if◌then◌else◌, length, get_or, Bool-cases, ne→==,
}
use solidc.Trie.{
  Node, Children, nil, child, chars, nchildren, child_at, replace_child, insert_child, child_index,
}
use solidc.Trie.Search.{IsSorted, Finds, search_loop-Finds, insert_at, get_or-lt}

abbrev pub find : Children → ℕ → Option Node
find nil c = none
find (child b n cs) c = if b == c then some n else find cs c

pub child_index-Finds :
    (cs : Children) (c : ℕ) → IsSorted (chars cs) → Finds (chars cs) c (child_index cs c)
unfolding child_index
child_index-Finds cs c s =
    search_loop-Finds (chars cs) c s (suc (nchildren cs)) 0 (nchildren cs) (omega arith)
      (omega arith) (omega arith) (λ i q hi. absurd (omega arith)) (λ i q hi. absurd (omega arith))

pub find-none : (cs : Children) (c : ℕ) → Finds (chars cs) c none → find cs c ≡ none
find-none nil c h = refl
find-none (child b n cs) c h =
    rw (ne→== b c (h 0 (omega arith))) (find-none cs c (λ i q. h (suc i) (omega arith)))

-- `c` stands at index `i`.
abbrev pub StandsAt : Children → ℕ → ℕ → Type 0
StandsAt cs c i = (i < nchildren cs) × (get_or (chars cs) i 0 ≡ c)

first_differs :
    (b : ℕ) (xs : List ℕ) (c i : ℕ)
    → IsSorted (b ∷ xs)
    → i < length xs
    → get_or xs i 0 ≡ c
    → (b == c) ≡ false
first_differs b xs c i s h e =
    ne→== b c
      (λ q. absurd (omega (arith, get_or-lt (b ∷ xs) 0 (suc i) s (omega arith) (omega arith))))

pub child_at-find :
    (cs : Children) (c i : ℕ)
    → IsSorted (chars cs)
    → StandsAt cs c i
    → (n : Node) × (child_at cs i ≡ some n) × (find cs c ≡ some n)
unfolding child_at
child_at-find nil c i s h = absurd (omega arith)
child_at-find (child b n cs) c zero s h = (n, refl, ground arith)
child_at-find (child b n cs) c (suc i) s h =
    let (m, p, q) = child_at-find cs c i s.1 (omega arith, h.1) in
    (m, p, rw (first_differs b (chars cs) c i s (omega arith) h.1) q)

pub chars-replace_child :
    (cs : Children) (i : ℕ) (m : Node) → chars (replace_child cs i m) ≡ chars cs
unfolding replace_child
chars-replace_child nil i m = refl
chars-replace_child (child b n cs) zero m = refl
chars-replace_child (child b n cs) (suc i) m = ap (λ t. b ∷ t) (chars-replace_child cs i m)

pub find-replace_child :
    (cs : Children) (c i : ℕ) (m : Node) (d : ℕ)
    → IsSorted (chars cs)
    → StandsAt cs c i
    → find (replace_child cs i m) d ≡ (if c == d then some m else find cs d)
unfolding replace_child
find-replace_child nil c i m d s h = absurd (omega arith)
find-replace_child (child b n cs) c zero m d s h = ground arith
find-replace_child (child b n cs) c (suc i) m d s h = ground (
  arith,
  first_differs b (chars cs) c i s (omega arith) h.1,
  find-replace_child cs c i m d s.1 (omega arith, h.1),
)

pub chars-insert_child :
    (cs : Children) (pos c : ℕ) (m : Node)
    → chars (insert_child cs pos c m) ≡ insert_at (chars cs) pos c
unfolding insert_child
chars-insert_child cs zero c m = refl
chars-insert_child nil (suc pos) c m = refl
chars-insert_child (child b n cs) (suc pos) c m = ap (λ t. b ∷ t) (chars-insert_child cs pos c m)

pub find-insert_child :
    (cs : Children) (pos c : ℕ) (m : Node) (d : ℕ)
    → pos ≤ nchildren cs
    → find cs c ≡ none
    → find (insert_child cs pos c m) d ≡ (if c == d then some m else find cs d)
unfolding insert_child
find-insert_child cs zero c m d h f = refl
find-insert_child nil (suc pos) c m d h f = absurd (omega arith)
find-insert_child (child b n cs) (suc pos) c m d h f = elim (Bool-cases (b == c)) [
  | inl e ↦ absurd (taken e f)
  | inr e ↦ ground (arith, find-insert_child cs pos c m d (omega arith) (absent e f))
]
  where
    taken : (b == c) ≡ true → (if b == c then some n else find cs c) ≡ none → ⊥
    taken e q = ground arith

    absent : (b == c) ≡ false → (if b == c then some n else find cs c) ≡ none → find cs c ≡ none
    absent e q = ground arith

pub insert_at-StandsAt :
    (xs : List ℕ) (pos c : ℕ)
    → pos ≤ length xs
    → (pos < length (insert_at xs pos c)) × (get_or (insert_at xs pos c) pos 0 ≡ c)
insert_at-StandsAt xs zero c h = (omega arith, refl)
insert_at-StandsAt [] (suc pos) c h = absurd (omega arith)
insert_at-StandsAt (x ∷ xs) (suc pos) c h =
    let (p, q) = insert_at-StandsAt xs pos c (omega arith) in (omega arith, q)
