-- ===== src/Trie/Delete.antt =====
-- `trie_delete` of src/trie.c.
use solidc.Base.{
  length, ℕ, ◌+◌, ◌≡◌, refl, sym, ap, ◌∙◌, ◌⊎◌, inl, inr, Bool, true, false, none, some, List, [],
  ◌∷◌, arith, if◌then◌else◌, Option-cases,
}
use solidc.Trie.{Node, Children, node, chars, child_at, replace_child, child_index, delete_path}
use solidc.Trie.Search.{IsSorted}
use solidc.Trie.Edges.{
  find, child_index-Finds, find-none, StandsAt, child_at-find, chars-replace_child,
}
use solidc.Trie.Insert.{entries_above, entry_below}
use solidc.Trie.Create.{found_Created, Created}
use solidc.Trie.Words.{entry, same_word}
use solidc.Trie.Order.{
  IsOrdered-IsSorted, IsOrdered-children, IsOrdered, AreOrdered-replace_child, words,
  words_of-replace_child, AreOrdered-child_at,
}

-- What a deletion from `n` leaves.
pub record Shrunk (w : List ℕ) (n n' : Node) : Type 0 where
  pub ordered : IsOrdered n'
  pub was_in : (entry w n).0 ≡ true
  pub tally : words n' + 1 ≡ words n
  pub entries : (v : List ℕ) → entry v n' ≡ (if same_word w v then (false, 0) else entry v n)

unmark_Shrunk :
    (cs : Children) (nalloc f : ℕ)
    → IsOrdered (node cs nalloc true f)
    → Shrunk [] (node cs nalloc true f) (node cs nalloc false 0)
unfolding IsOrdered words
unmark_Shrunk cs nalloc f o = record {
  ordered = (o.0, o.1, λ _. refl, o.3, o.4);
  was_in = refl;
  tally = omega arith;
  entries = entries;
}
  where
    entries :
        (v : List ℕ)
        → entry v (node cs nalloc false 0)
          ≡ (if same_word [] v then (false, 0) else entry v (node cs nalloc true f))
    entries [] = refl
    entries (d ∷ v) = refl

module _ (cs : Children) (c idx nalloc f : ℕ) (e : Bool) (w : List ℕ) (m : Node)
    (o : IsOrdered (node cs nalloc e f)) (i : child_index cs c ≡ some idx)
    (p : child_at cs idx ≡ some m) where
  stands : StandsAt cs c idx
  unfolding IsOrdered
  stands = rw i at (child_index-Finds cs c o.0)

  parent_Shrunk :
      (m' : Node)
      → Shrunk w m m'
      → Shrunk (c ∷ w) (node cs nalloc e f) (node (replace_child cs idx m') nalloc e f)
  unfolding IsOrdered words
  parent_Shrunk m' g =
      let k : Created cs c cs idx = found_Created cs c o.0 idx stands in
      let (m₁, p₁, q) = child_at-find cs c idx o.0 stands in
      let q' : find cs c ≡ some m = q ∙ sym p₁ ∙ p in
      record {
        ordered = (
          rw chars-replace_child o.0,
          AreOrdered-replace_child cs idx m' o.1 g.ordered,
          o.2,
          omega (arith, o.3, ap length (chars-replace_child cs idx m')),
          o.4,
        );
        was_in = ap (λ t. t.0) (entry_below k q' w nalloc f e) ∙ g.was_in;
        tally = omega (arith, g.tally, words_of-replace_child cs idx m' m p);
        entries = entries_above k q' w m' (false, 0) g.entries nalloc nalloc f e;
      }

  child_entry : entry (c ∷ w) (node cs nalloc e f) ≡ entry w m
  unfolding IsOrdered
  child_entry =
      let (m₁, p₁, q) = child_at-find cs c idx o.0 stands in
      entry_below (found_Created cs c o.0 idx stands) (q ∙ sym p₁ ∙ p) w nalloc f e

-- The walk takes the mark off the word and keeps every other, or finds that the word is not in.
pub delete_path_lem :
    (w : List ℕ) (n : Node)
    → IsOrdered n
    → ((n' : Node) × (delete_path w n ≡ some n') × Shrunk w n n')
      ⊎ ((delete_path w n ≡ none) × ((entry w n).0 ≡ false))
unfolding delete_path
delete_path_lem [] (node cs nalloc true f) o = inl (_, refl, unmark_Shrunk cs nalloc f o)
delete_path_lem [] (node cs nalloc false f) o = inr (refl, refl)
delete_path_lem (c ∷ w) (node cs nalloc e f) o = elim (Option-cases (child_index cs c)) [
  | inl i ↦ inr (rw (i, delete_path), ap (λ t. t.0) (missing i))
  | inr (idx, i) ↦ elim (Option-cases (child_at cs idx)) [
    | inl p ↦ absurd (no_gap idx i p)
    | inr (m, p) ↦
        elim (delete_path_lem w m
          (AreOrdered-child_at cs idx (IsOrdered-children cs nalloc f e o) p)) [
            | inl (m', d, g) ↦ inl (
              node (replace_child cs idx m') nalloc e f,
              ground arith,
              parent_Shrunk cs c idx nalloc f e w m o i p m' g,
            )
            | inr (d, g) ↦
                inr (ground arith, ap (λ t. t.0) (child_entry cs c idx nalloc f e w m o i p) ∙ g)
          ]
  ]
]
  where
    sorted : IsSorted (chars cs)
    sorted = IsOrdered-IsSorted cs nalloc f e o

    missing : child_index cs c ≡ none → entry (c ∷ w) (node cs nalloc e f) ≡ (false, 0)
    missing i = ground (arith, find-none cs c (rw i at (child_index-Finds cs c sorted)))

    no_gap : (idx : ℕ) → child_index cs c ≡ some idx → child_at cs idx ≡ none → ⊥
    no_gap idx i p =
        let (m, q, r) = child_at-find cs c idx sorted (rw i at (child_index-Finds cs c sorted)) in
        cc
