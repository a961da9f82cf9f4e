-- ===== src/Trie/Words.antt =====
-- A tree of src/trie.c as a map from words: whether the word is in, and how often it was inserted.
use mathlib.Core.Path.{ap₂}
use solidc.Base.{
  ℕ, ◌≡◌, refl, sym, ◌∙◌, inl, inr, Bool, true, false, ◌&&◌, Option, none, some, List, [], ◌∷◌,
  arith, ◌==◌, if◌then◌else◌, Bool-cases, Option-cases,
}
use solidc.Trie.{
  Node, Children, node, chars, empty_node, child_index, descend, navigate, is_end_of_word,
  frequency,
}
use solidc.Trie.Search.{IsSorted}
use solidc.Trie.Edges.{find, child_index-Finds, find-none, child_at-find}
use solidc.Trie.Create.{or_empty}
use solidc.Trie.Order.{IsOrdered, AreOrdered-find}

-- what a node says of its own word
abbrev pub mark : Node → Bool × ℕ
mark n = (is_end_of_word n, frequency n)

-- The mark of the node that a word leads to.
abbrev pub entry : List ℕ → Node → Bool × ℕ
entry [] n = mark n
entry (c ∷ w) (node cs nalloc e f) = elim (find cs c) [ none ↦ (false, 0) | some n ↦ entry w n ]

abbrev pub same_word : List ℕ → List ℕ → Bool
same_word [] [] = true
same_word [] (d ∷ v) = false
same_word (c ∷ w) [] = false
same_word (c ∷ w) (d ∷ v) = (c == d) && same_word w v

pub eq_of_same_word : (w v : List ℕ) → same_word w v ≡ true → w ≡ v
eq_of_same_word [] [] h = refl
eq_of_same_word [] (d ∷ v) h = cc
eq_of_same_word (c ∷ w) [] h = cc
eq_of_same_word (c ∷ w) (d ∷ v) h =
    let e : (c ≡ d) × (same_word w v ≡ true) = ground arith in ap₂ ◌∷◌ e.0 (eq_of_same_word w v e.1)

entry-empty : (w : List ℕ) → entry w empty_node ≡ (false, 0)
entry-empty [] = refl
entry-empty (c ∷ w) = refl

-- `child_index` and the array read come to the map's answer.
pub descend-find : (cs : Children) (c : ℕ) → IsSorted (chars cs) → descend cs c ≡ find cs c
unfolding descend
descend-find cs c s = elim (Option-cases (child_index cs c)) [
  | inl e ↦ rw (e, descend) (sym (find-none cs c (rw e at (child_index-Finds cs c s))))
  | inr (i, e) ↦
      let (n, p, q) = child_at-find cs c i s (rw e at (child_index-Finds cs c s)) in
      rw (e, descend) (p ∙ sym q)
]

abbrev pub mark_of : Option Node → Bool × ℕ
mark_of none = (false, 0)
mark_of (some n) = mark n

-- The walk ends at the word's mark.
pub navigate-entry : (w : List ℕ) (n : Node) → IsOrdered n → mark_of (navigate w n) ≡ entry w n
unfolding navigate IsOrdered
navigate-entry [] n o = refl
navigate-entry (c ∷ w) (node cs nalloc e f) o = elim (Option-cases (find cs c)) [
  | inl q ↦ ground (arith, descend-find cs c o.0)
  | inr (m, q) ↦
      ground (arith, descend-find cs c o.0, navigate-entry w m (AreOrdered-find cs c o.1 q))
]

pub entry-or_empty :
    (w : List ℕ) (o : Option Node)
    → (elim o [ none ↦ (false, 0) | some n ↦ entry w n ]) ≡ entry w (or_empty o)
entry-or_empty w none = sym (entry-empty w)
entry-or_empty w (some n) = refl

-- A tree where the child of `c` alone is another.
abbrev pub Replaced : Children → ℕ → Node → Children → Type 0
Replaced cs c m cs' = (d : ℕ) → find cs' d ≡ (if c == d then some m else find cs d)

pub entry-Replaced :
    (cs cs' : Children) (c : ℕ) (m : Node) (d : ℕ) (v : List ℕ) (nalloc nalloc' f : ℕ) (e : Bool)
    → Replaced cs c m cs'
    → entry (d ∷ v) (node cs' nalloc' e f)
      ≡ (if c == d then entry v m else entry (d ∷ v) (node cs nalloc e f))
entry-Replaced cs cs' c m d v nalloc nalloc' f e r = elim (Bool-cases (c == d)) [
  | inl q ↦ ground (arith, r d)
  | inr q ↦ ground (arith, r d)
]

-- A word that is not in was never counted, or no more.
pub entry_unmarked :
    (w : List ℕ) (n : Node) → IsOrdered n → (entry w n).0 ≡ false → (entry w n).1 ≡ 0
unfolding IsOrdered
entry_unmarked [] (node cs nalloc e f) o h = o.2 h
entry_unmarked (c ∷ w) (node cs nalloc e f) o h = elim (Option-cases (find cs c)) [
  | inl q ↦ ground arith
  | inr (m, q) ↦ ground (arith, entry_unmarked w m (AreOrdered-find cs c o.1 q))
]
