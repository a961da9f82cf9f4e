-- ===== src/Trie/Arrays.antt =====
-- The arrays of a node of src/trie.c have room for its children.
use solidc.Base.{
  ℕ, zero, suc, ◌≤◌, ◌<◌, ◌≡◌, refl, sym, ap, ◌∙◌, inl, inr, Bool, some, arith, Option-cases,
}
use solidc.Trie.{
  Children, nil, child, chars, nchildren, empty_node, insert_child, child_index, at, grow, grown,
  child_find_or_create, slot_from, Node,
}
use solidc.Trie.Search.{IsSorted}
use solidc.Trie.Create.{
  Growth-cases, child_find_or_create-grown, other_growth, create_child-at, slot_from-le,
}

nchildren-insert_child :
    (cs : Children) (pos c : ℕ) (m : Node)
    → pos ≤ nchildren cs
    → nchildren (insert_child cs pos c m) ≡ suc (nchildren cs)
unfolding insert_child
nchildren-insert_child cs zero c m h = refl
nchildren-insert_child nil (suc pos) c m h = absurd (omega arith)
nchildren-insert_child (child b n cs) (suc pos) c m h =
    ap suc (nchildren-insert_child cs pos c m (omega arith))

module _ (grants : ℕ → Bool) (cs : Children) (nalloc : ℕ) (few : nchildren cs ≤ nalloc)
    (byte : nalloc < 256) where
  -- The growth keeps `nalloc` in a byte.
  grow-byte : (n : ℕ) → grow grants cs nalloc ≡ grown n → n < 256
  unfolding grow
  grow-byte n e = ground arith

  -- With fewer than 128 children, it makes room for one more.
  pub grow-room : (n : ℕ) → nchildren cs < 128 → grow grants cs nalloc ≡ grown n → nchildren cs < n
  unfolding grow
  grow-room n small e = ground arith

  module _ (c : ℕ) (s : IsSorted (chars cs)) (cs' : Children) (nalloc' idx : ℕ) where
    found_room :
        (i : ℕ)
        → child_index cs c ≡ some i
        → child_find_or_create grants cs nalloc c ≡ at cs' nalloc' idx
        → (nchildren cs' ≤ nalloc') × (nalloc' < 256)
    unfolding child_find_or_create
    found_room i there e =
        let same : (cs ≡ cs') × (nalloc ≡ nalloc') = ground arith in
        rw⁻¹ (same.0, same.1) (few, byte)

    pub child_find_or_create-room :
        child_find_or_create grants cs nalloc c ≡ at cs' nalloc' idx
        → (nchildren cs' ≤ nalloc') × (nalloc' < 256)
    child_find_or_create-room e = elim (Option-cases (child_index cs c)) [
      | inr (i, there) ↦ found_room i there e
      | inl missing ↦ elim (Growth-cases (grow grants cs nalloc)) [
        | inr other ↦ absurd (other_growth cs c s grants cs' idx nalloc nalloc' missing other e)
        | inl (n, g) ↦
            let made =
              create_child-at grants cs c n nalloc' cs' idx
                (sym (child_find_or_create-grown grants cs c nalloc n missing g) ∙ e) in
            (
              omega (
                arith,
                made.room,
                made.same_alloc,
                ap nchildren made.children,
                nchildren-insert_child cs (slot_from (nchildren cs) (chars cs) c) c empty_node
                    (slot_from-le (nchildren cs) (chars cs) c),
              ),
              omega (arith, made.same_alloc, grow-byte n g),
            )
      ]
    ]
