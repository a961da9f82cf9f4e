-- ===== src/Trie/Create.antt =====
-- `child_find_or_create` of src/trie.c.
use solidc.Base.{
  zero, suc, ◌≤◌, ◌<◌, List, ltb, get_or, ℕ, ◌≡◌, refl, sym, ◌∙◌, ◌⊎◌, inl, inr, Bool, Option, none,
  some, arith, ◌==◌, if◌then◌else◌, Bool-cases, Option-cases, ==→eq,
}
use solidc.Trie.{
  Node, Children, chars, nchildren, empty_node, child_at, insert_child, child_index, at, Growth,
  grow, grown, refused, dangling, create_child, child_find_or_create, slot_from, to_int8, in_array,
}
use solidc.Trie.Search.{IsSorted, Finds, IsSlot, slot_from_lem, IsSorted-insert_at}
use solidc.Trie.Order.{
  AreOrdered, AreOrdered-insert_child, empty-IsOrdered, words_of, words_of-insert_child,
}
use solidc.Trie.Edges.{
  find, child_index-Finds, find-none, StandsAt, child_at-find, chars-insert_child,
  find-insert_child, insert_at-StandsAt,
}

abbrev pub or_empty : Option Node → Node
or_empty none = empty_node
or_empty (some n) = n

-- `child_find_or_create` keeps the other children, and adds an empty child if `c` had none.
pub record Created (cs : Children) (c : ℕ) (cs' : Children) (idx : ℕ) : Type 0 where
  pub sorted : IsSorted (chars cs')
  pub stands : StandsAt cs' c idx
  pub finds : (d : ℕ) → find cs' d ≡ (if c == d then some (or_empty (find cs c)) else find cs d)
  pub ordered : AreOrdered cs → AreOrdered cs'
  pub tally : words_of cs' ≡ words_of cs

pub Growth-cases : (g : Growth) → ((n : ℕ) × (g ≡ grown n)) ⊎ (g ≡ refused) ⊎ (g ≡ dangling)
Growth-cases (grown n) = inl (n, refl)
Growth-cases refused = inr (inl refl)
Growth-cases dangling = inr (inr refl)

pub child_find_or_create-grown :
    (grants : ℕ → Bool) (cs : Children) (c nalloc new_alloc : ℕ)
    → child_index cs c ≡ none
    → grow grants cs nalloc ≡ grown new_alloc
    → child_find_or_create grants cs nalloc c ≡ create_child grants cs new_alloc c
unfolding child_find_or_create
child_find_or_create-grown grants cs c nalloc new_alloc missing g = ground arith

-- What a child that was made tells: the arrays had room for it.
pub record Made (cs : Children) (c nalloc nalloc' : ℕ) (cs' : Children) (idx : ℕ) : Type 0 where
  pub children : cs' ≡ insert_child cs (slot_from (nchildren cs) (chars cs) c) c empty_node
  pub place : idx ≡ slot_from (nchildren cs) (chars cs) c
  pub same_alloc : nalloc' ≡ nalloc
  pub room : nchildren cs < nalloc

pub slot_from-le : (n : ℕ) (xs : List ℕ) (c : ℕ) → slot_from n xs c ≤ n
unfolding slot_from
slot_from-le zero xs c = omega arith
slot_from-le (suc n) xs c = elim (Bool-cases (ltb c (get_or xs n 0))) [
  | inl down ↦ rw down (omega (arith, slot_from-le n xs c))
  | inr stays ↦ rw stays (omega arith)
]

pub create_child-at :
    (grants : ℕ → Bool) (cs : Children) (c nalloc nalloc' : ℕ) (cs' : Children) (idx : ℕ)
    → create_child grants cs nalloc c ≡ at cs' nalloc' idx
    → Made cs c nalloc nalloc' cs' idx
unfolding create_child to_int8 in_array
create_child-at grants cs c nalloc nalloc' cs' idx e = record {
  children = ground arith;
  place = ground arith;
  same_alloc = ground arith;
  room = ground (arith, slot_from-le (nchildren cs) (chars cs) c);
}

module _ (cs : Children) (c : ℕ) (s : IsSorted (chars cs)) where
  pub found_Created : (idx : ℕ) → StandsAt cs c idx → Created cs c cs idx
  found_Created idx h = record {
    sorted = s;
    stands = h;
    finds = same (child_at-find cs c idx s h);
    ordered = λ o. o;
    tally = refl;
  }
    where
      same :
          (n : Node) × (child_at cs idx ≡ some n) × (find cs c ≡ some n)
          → (d : ℕ) → find cs d ≡ (if c == d then some (or_empty (find cs c)) else find cs d)
      same (n, p, q) d = elim (Bool-cases (c == d)) [
        | inl e ↦ rw (e, ← ==→eq c d e, q)
        | inr e ↦ rw e
      ]

  pub new_Created :
      Finds (chars cs) c none
      → let pos = slot_from (nchildren cs) (chars cs) c in
        Created cs c (insert_child cs pos c empty_node) pos
  new_Created fresh = record {
    sorted =
        rw (chars-insert_child cs pos c empty_node)
          (IsSorted-insert_at (chars cs) pos c s slot fresh);
    stands =
        rw (chars-insert_child cs pos c empty_node) (insert_at-StandsAt (chars cs) pos c slot.0);
    finds = λ d. rw (absent, find-insert_child cs pos c empty_node d slot.0 absent);
    ordered = λ o. AreOrdered-insert_child cs pos c empty_node o empty-IsOrdered;
    tally = words_of-insert_child cs pos c slot.0;
  }
    where
      pos : ℕ
      pos = slot_from (nchildren cs) (chars cs) c

      slot : IsSlot (chars cs) c pos
      slot = slot_from_lem (chars cs) c s

      absent : find cs c ≡ none
      absent = find-none cs c fresh

  module _ (grants : ℕ → Bool) (cs' : Children) (idx : ℕ) where
    create_child-Created :
        (nalloc nalloc' : ℕ)
        → Finds (chars cs) c none
        → create_child grants cs nalloc c ≡ at cs' nalloc' idx
        → Created cs c cs' idx
    create_child-Created nalloc nalloc' fresh e =
        let made = create_child-at grants cs c nalloc nalloc' cs' idx e in
        rw (made.children, made.place) (new_Created fresh)

    by_index :
        (nalloc nalloc' i : ℕ)
        → child_index cs c ≡ some i
        → child_find_or_create grants cs nalloc c ≡ at cs' nalloc' idx
        → Created cs c cs' idx
    unfolding child_find_or_create
    by_index nalloc nalloc' i there e =
        let same : (cs' ≡ cs) × (idx ≡ i) = ground arith in
        rw (same.0, same.1) (found_Created i (rw there at (child_index-Finds cs c s)))

    pub other_growth :
        (nalloc nalloc' : ℕ)
        → child_index cs c ≡ none
        → (grow grants cs nalloc ≡ refused) ⊎ (grow grants cs nalloc ≡ dangling)
        → child_find_or_create grants cs nalloc c ≡ at cs' nalloc' idx
        → ⊥
    unfolding child_find_or_create
    other_growth nalloc nalloc' missing other e = ground arith

    pub child_find_or_create-Created :
        (nalloc nalloc' : ℕ)
        → child_find_or_create grants cs nalloc c ≡ at cs' nalloc' idx
        → Created cs c cs' idx
    child_find_or_create-Created nalloc nalloc' e = elim (Option-cases (child_index cs c)) [
      | inl missing ↦ elim (Growth-cases (grow grants cs nalloc)) [
        | inl (new_alloc, g) ↦
            create_child-Created new_alloc nalloc' (rw missing at (child_index-Finds cs c s))
              (sym (child_find_or_create-grown grants cs c nalloc new_alloc missing g) ∙ e)
        | inr other ↦ absurd (other_growth nalloc nalloc' missing other e)
      ]
      | inr (i, there) ↦ by_index nalloc nalloc' i there e
    ]
