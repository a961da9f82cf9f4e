-- ===== src/Trie/Room.antt =====
-- When an insertion of src/trie.c goes through, and when it breaks the tree.
use solidc.Base.{
  ◌∙◌, ◌++◌, ℕ, ◌*◌, ◌%◌, ◌≤◌, ◌<◌, ◌≡◌, refl, inl, inr, Bool, true, Option, none, some, List, [],
  ◌∷◌, arith, ltb, ◌==◌, if◌then◌else◌, Bool-cases, Option-cases, ==_refl,
}
use solidc.Trie.{
  to_int8, in_array, child_at, Node, Children, node, chars, nchildren, empty_node, replace_child,
  insert_child, child_index, slot_from, at, corrupt, grow, grown, create_child,
  child_find_or_create, inserted, broken, insert_path,
}
use solidc.Trie.Search.{IsSorted}
use solidc.Trie.Edges.{find, child_at-find}
use solidc.Trie.Arrays.{grow-room}
use solidc.Trie.Create.{
  or_empty, Created, slot_from-le, child_find_or_create-grown, child_find_or_create-Created,
}
use solidc.Trie.Order.{
  IsOrdered, IsOrdered-IsSorted, IsOrdered-room, IsOrdered-children, AreOrdered-child_at,
}

-- Every node on the way has fewer than 128 children.
abbrev pub Roomy : List ℕ → Node → Type 0
Roomy [] n = Unit
Roomy (c ∷ w) (node cs nalloc e f) =
    (nchildren cs < 128) × (elim (find cs c) [ none ↦ Unit | some n ↦ Roomy w n ])

Roomy-or_empty :
    (w : List ℕ) (o : Option Node)
    → (elim o as (λ _. Type 0) [ none ↦ Unit | some n ↦ Roomy w n ])
    → Roomy w (or_empty o)
Roomy-or_empty [] none h = tt
Roomy-or_empty (c ∷ w) none h = (omega arith, tt)
Roomy-or_empty w (some n) h = h

-- The walk over the nodes that are there.
unfoldable pub Leads : List ℕ → Node → Node → Type 0
Leads [] n last = n ≡ last
Leads (c ∷ w) (node cs nalloc e f) last =
    (idx : ℕ) × (m : Node) × (child_index cs c ≡ some idx)
    × (child_at cs idx ≡ some m)
    × Leads w m last

module _ (grants : ℕ → Bool) (generous : (n : ℕ) → grants n ≡ true) where
  grow-grown :
      (cs : Children) (nalloc : ℕ) → (new_alloc : ℕ) × (grow grants cs nalloc ≡ grown new_alloc)
  unfolding grow
  grow-grown cs nalloc = elim (Bool-cases (nchildren cs == nalloc)) [
    | inr room ↦ (nalloc, rw room)
    | inl full ↦
        let doubled : ℕ = if nalloc == 0 then 2 else nalloc * 2 % 256 in
        let new_alloc : ℕ = if ltb doubled nalloc then 255 else doubled in
        (new_alloc, rw (full, generous new_alloc, generous (new_alloc * 8)))
  ]

  create_child-room :
      (cs : Children) (nalloc c : ℕ)
      → nchildren cs < 128
      → nchildren cs < nalloc
      → create_child grants cs nalloc c
        ≡ at
            (insert_child cs (slot_from (nchildren cs) (chars cs) c) c empty_node)
            nalloc
            (slot_from (nchildren cs) (chars cs) c)
  unfolding create_child to_int8 in_array
  create_child-room cs nalloc c small room =
      ground (arith, generous 24, slot_from-le (nchildren cs) (chars cs) c)

  child_find_or_create-at :
      (cs : Children) (nalloc c : ℕ)
      → nchildren cs < 128
      → (nchildren cs ≤ nalloc) × (nalloc < 256)
      → (cs' : Children) × (nalloc' : ℕ) × (idx : ℕ) × (child_find_or_create grants cs nalloc c
          ≡ at cs' nalloc' idx)
  unfolding child_find_or_create
  child_find_or_create-at cs nalloc c h held = elim (Option-cases (child_index cs c)) [
    | inr (idx, i) ↦ (cs, nalloc, idx, rw (i, child_find_or_create))
    | inl i ↦
        let (new_alloc, g) = grow-grown cs nalloc in
        (
          insert_child cs (slot_from (nchildren cs) (chars cs) c) c empty_node,
          new_alloc,
          slot_from (nchildren cs) (chars cs) c,
          child_find_or_create-grown grants cs c nalloc new_alloc i g
              ∙ create_child-room cs new_alloc c h
                  (grow-room grants cs nalloc held.0 held.1 new_alloc h g),
        )
  ]

  create_child-corrupt :
      (cs : Children) (nalloc c : ℕ)
      → 128 ≤ nchildren cs
      → create_child grants cs nalloc c ≡ corrupt
  unfolding create_child to_int8 in_array
  create_child-corrupt cs nalloc c h = ground (arith, generous 24)

  -- With memory at hand, an insertion whose word leads over nodes that are there to one of 128 children
  -- or more, without a child for the next byte, writes outside of the arrays of that node.
  pub insert_path-broken :
      (v w : List ℕ) (n : Node) (c nalloc f : ℕ) (e : Bool) (cs : Children)
      → Leads v n (node cs nalloc e f)
      → 128 ≤ nchildren cs
      → child_index cs c ≡ none
      → insert_path grants (v ++ c ∷ w) n ≡ broken
  unfolding insert_path child_find_or_create Leads
  insert_path-broken [] w n c nalloc f e cs leads h i =
      let (new_alloc, g) = grow-grown cs nalloc in
      let made : child_find_or_create grants cs nalloc c ≡ corrupt =
        child_find_or_create-grown grants cs c nalloc new_alloc i g
        ∙ create_child-corrupt cs new_alloc c h in
      rw leads (rw (made, insert_path) refl)
  insert_path-broken (b ∷ v) w (node ds nalloc' e' f') c nalloc f e cs leads h i =
      let (idx, m, found, stands, rest) = leads in
      rw
        (
          found,
          stands,
          insert_path,
          child_find_or_create,
          insert_path-broken v w m c nalloc f e cs rest h i,
        )
        refl

  -- With memory at hand and fewer than 128 children on the way, an insertion into a well-formed
  -- tree succeeds.
  pub insert_path-inserted :
      (w : List ℕ) (n : Node)
      → IsOrdered n
      → Roomy w n
      → (n' : Node) × (new : Bool) × (insert_path grants w n ≡ inserted n' new)
  unfolding insert_path
  insert_path-inserted [] (node cs nalloc e f) o r = (_, _, refl)
  insert_path-inserted (c ∷ w) (node cs nalloc e f) o r =
      let (cs', nalloc', idx, q) =
        child_find_or_create-at cs nalloc c r.0 (IsOrdered-room cs nalloc f e o) in
      let sorted : IsSorted (chars cs) = IsOrdered-IsSorted cs nalloc f e o in
      let k : Created cs c cs' idx =
        child_find_or_create-Created cs c sorted grants cs' idx nalloc nalloc' q in
      let (m, p, t) = child_at-find cs' c idx k.sorted k.stands in
      let same : m ≡ or_empty (find cs c) = ground (arith, k.finds c, ==_refl c) in
      let (m', new, u) =
        insert_path-inserted w m
          (AreOrdered-child_at cs' idx (k.ordered (IsOrdered-children cs nalloc f e o)) p)
          (rw same (Roomy-or_empty w (find cs c) r.1)) in
      (node (replace_child cs' idx m') nalloc' e f, new, ground arith)
