-- ===== src/Trie/Order.antt =====
-- Well-formed trees of src/trie.c, where the bytes of every node are sorted, its arrays have room for
-- its children and a node that ends no word has frequency 0, and the number of words that a tree
-- marks.
use mathlib.Core.Path.{subst}
use solidc.Base.{
  inl, inr, ℕ, zero, suc, ◌+◌, ◌≤◌, ◌<◌, ◌≡◌, refl, Bool, false, some, arith, ◌==◌, if◌then◌else◌,
  Bool-cases,
}
use solidc.Trie.{
  Node, Children, node, nil, child, chars, nchildren, empty_node, child_at, replace_child,
  insert_child,
}
use solidc.Trie.Search.{IsSorted}
use solidc.Trie.Edges.{find}

unfoldable mutual
  pub IsOrdered : Node → Type 0
  IsOrdered (node cs nalloc e f) =
      IsSorted (chars cs)
      × AreOrdered cs
      × (e ≡ false → f ≡ 0)
      × (nchildren cs ≤ nalloc)
      × (nalloc < 256)

  pub AreOrdered : Children → Type 0
  AreOrdered nil = Unit
  AreOrdered (child c n cs) = IsOrdered n × AreOrdered cs

pub IsOrdered-IsSorted :
    (cs : Children) (nalloc f : ℕ) (e : Bool) → IsOrdered (node cs nalloc e f) → IsSorted (chars cs)
unfolding IsOrdered
IsOrdered-IsSorted cs nalloc f e o = o.0

pub IsOrdered-children :
    (cs : Children) (nalloc f : ℕ) (e : Bool) → IsOrdered (node cs nalloc e f) → AreOrdered cs
unfolding IsOrdered
IsOrdered-children cs nalloc f e o = o.1

pub IsOrdered-room :
    (cs : Children) (nalloc f : ℕ) (e : Bool)
    → IsOrdered (node cs nalloc e f)
    → (nchildren cs ≤ nalloc) × (nalloc < 256)
unfolding IsOrdered
IsOrdered-room cs nalloc f e o = (o.3, o.4)

pub empty-IsOrdered : IsOrdered empty_node
unfolding IsOrdered AreOrdered
empty-IsOrdered = (tt, tt, λ _. refl, omega arith, omega arith)

pub AreOrdered-child_at :
    (cs : Children) (i : ℕ) {n : Node} → AreOrdered cs → child_at cs i ≡ some n → IsOrdered n
unfolding AreOrdered child_at
AreOrdered-child_at nil i h e = cc
AreOrdered-child_at (child c m cs) zero {n} h e = let q : m ≡ n = cc in subst IsOrdered q h.0
AreOrdered-child_at (child c m cs) (suc i) h e = AreOrdered-child_at cs i h.1 e

pub AreOrdered-find :
    (cs : Children) (c : ℕ) {n : Node} → AreOrdered cs → find cs c ≡ some n → IsOrdered n
unfolding AreOrdered
AreOrdered-find nil c h e = cc
AreOrdered-find (child b m cs) c {n} h e = elim (Bool-cases (b == c)) [
  | inl q ↦ let same : m ≡ n = ground arith in subst IsOrdered same h.0
  | inr q ↦ AreOrdered-find cs c h.1 (rw q at e)
]

pub AreOrdered-replace_child :
    (cs : Children) (i : ℕ) (m : Node)
    → AreOrdered cs
    → IsOrdered m
    → AreOrdered (replace_child cs i m)
unfolding AreOrdered replace_child
AreOrdered-replace_child nil i m h k = tt
AreOrdered-replace_child (child c n cs) zero m h k = (k, h.1)
AreOrdered-replace_child (child c n cs) (suc i) m h k = (h.0, AreOrdered-replace_child cs i m h.1 k)

pub AreOrdered-insert_child :
    (cs : Children) (pos c : ℕ) (m : Node)
    → AreOrdered cs
    → IsOrdered m
    → AreOrdered (insert_child cs pos c m)
unfolding AreOrdered insert_child
AreOrdered-insert_child cs zero c m h k = (k, h)
AreOrdered-insert_child nil (suc pos) c m h k = tt
AreOrdered-insert_child (child b n cs) (suc pos) c m h k =
    (h.0, AreOrdered-insert_child cs pos c m h.1 k)

unfoldable mutual
  pub words : Node → ℕ
  words (node cs nalloc e f) = (if e then 1 else 0) + words_of cs

  pub words_of : Children → ℕ
  words_of nil = 0
  words_of (child c n cs) = words n + words_of cs

pub words_of-replace_child :
    (cs : Children) (i : ℕ) (m n : Node)
    → child_at cs i ≡ some n
    → words_of (replace_child cs i m) + words n ≡ words_of cs + words m
unfolding words replace_child child_at
words_of-replace_child nil i m n e = cc
words_of-replace_child (child c k cs) zero m n e = let q : k ≡ n = cc in rw q (omega arith)
words_of-replace_child (child c k cs) (suc i) m n e =
    omega (arith, words_of-replace_child cs i m n e)

pub words_of-insert_child :
    (cs : Children) (pos c : ℕ)
    → pos ≤ nchildren cs
    → words_of (insert_child cs pos c empty_node) ≡ words_of cs
unfolding words insert_child
words_of-insert_child cs zero c h = omega arith
words_of-insert_child nil (suc pos) c h = absurd (omega arith)
words_of-insert_child (child b n cs) (suc pos) c h =
    omega (arith, words_of-insert_child cs pos c (omega arith))
