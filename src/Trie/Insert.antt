-- ===== src/Trie/Insert.antt =====
-- `trie_insert` of src/trie.c.
use mathlib.Core.Path.{subst, subst₂}
use solidc.Base.{
  ◌≤◌, ◌<◌, length, ℕ, ◌+◌, ◌%◌, ◌^◌, ◌≡◌, refl, sym, ap, ◌∙◌, ◌⊎◌, inl, inr, Bool, true, false,
  not, ◌&&◌, some, List, [], ◌∷◌, arith, ◌==◌, if◌then◌else◌, Bool-cases, Option-cases, ==→eq,
  ==_refl,
}
use solidc.Trie.{
  nchildren, Node, Children, node, child_at, replace_child, Slot, at, no_memory, corrupt,
  child_find_or_create, Inserted, inserted, stopped, broken, insert_path,
}
use solidc.Trie.Edges.{find, child_at-find, chars-replace_child, find-replace_child}
use solidc.Trie.Arrays.{child_find_or_create-room}
use solidc.Trie.Create.{or_empty, Created, child_find_or_create-Created}
use solidc.Trie.Words.{entry, same_word, entry-or_empty, Replaced, entry-Replaced}
use solidc.Trie.Order.{
  IsOrdered-room, IsOrdered-IsSorted, IsOrdered, AreOrdered-replace_child, words,
  words_of-replace_child, AreOrdered-child_at,
}

-- What an insertion into `n` leaves.
pub record Grown (w : List ℕ) (n n' : Node) (new : Bool) : Type 0 where
  pub ordered : IsOrdered n'
  pub is_new : new ≡ not (entry w n).0
  pub tally : words n' ≡ words n + (if new then 1 else 0)
  pub entries :
      (v : List ℕ)
      → entry v n' ≡ (if same_word w v then (true, ((entry w n).1 + 1) % 2 ^ 32) else entry v n)

mark_Grown :
    (cs : Children) (nalloc f : ℕ) (e : Bool)
    → IsOrdered (node cs nalloc e f)
    → Grown [] (node cs nalloc e f) (node cs nalloc true ((f + 1) % 2 ^ 32)) (not e)
unfolding IsOrdered words
mark_Grown cs nalloc f e o = record {
  ordered = (o.0, o.1, λ h. cc, o.3, o.4);
  is_new = refl;
  tally = ground arith;
  entries = entries;
}
  where
    entries :
        (v : List ℕ)
        → entry v (node cs nalloc true ((f + 1) % 2 ^ 32))
          ≡ (if same_word [] v then (true, (f + 1) % 2 ^ 32) else entry v (node cs nalloc e f))
    entries [] = refl
    entries (d ∷ v) = refl

-- The child that the insertion goes down to.
module _ {cs cs' : Children} {c idx : ℕ} (k : Created cs c cs' idx) {m : Node}
    (q : find cs' c ≡ some m) where
  came_from : m ≡ or_empty (find cs c)
  came_from = ground (arith, k.finds c, ==_refl c)

  pub entry_below :
      (v : List ℕ) (nalloc f : ℕ) (e : Bool) → entry (c ∷ v) (node cs nalloc e f) ≡ entry v m
  entry_below v nalloc f e = rw came_from (entry-or_empty v (find cs c))

  replaced : (m' : Node) → Replaced cs c m' (replace_child cs' idx m')
  replaced m' d = find-replace_child cs' c idx m' d k.sorted k.stands ∙ keep
    where
      keep : (if c == d then some m' else find cs' d) ≡ (if c == d then some m' else find cs d)
      keep = ground (arith, k.finds d)

  pub entries_above :
      (w : List ℕ) (m' : Node) (x : Bool × ℕ)
      → ((v : List ℕ) → entry v m' ≡ (if same_word w v then x else entry v m))
      → (nalloc nalloc' f : ℕ) (e : Bool) (v : List ℕ)
      → entry v (node (replace_child cs' idx m') nalloc' e f)
        ≡ (if same_word (c ∷ w) v then x else entry v (node cs nalloc e f))
  entries_above w m' x h nalloc nalloc' f e [] = refl
  entries_above w m' x h nalloc nalloc' f e (d ∷ v) =
      entry-Replaced cs (replace_child cs' idx m') c m' d v nalloc nalloc' f e (replaced m')
      ∙ split (Bool-cases (c == d))
    where
      split :
          ((c == d) ≡ true) ⊎ ((c == d) ≡ false)
          → (if c == d then entry v m' else entry (d ∷ v) (node cs nalloc e f))
            ≡ (if (c == d) && same_word w v then x else entry (d ∷ v) (node cs nalloc e f))
      split (inl t) = rw (t, ← ==→eq c d t, entry_below v nalloc f e) (h v)
      split (inr t) = rw t

-- One level up.
parent_Grown :
    (cs cs' : Children) (c idx nalloc nalloc' f : ℕ) (e : Bool) (w : List ℕ) (m' : Node)
    (new : Bool)
    → IsOrdered (node cs nalloc e f)
    → Created cs c cs' idx
    → (nchildren cs' ≤ nalloc') × (nalloc' < 256)
    → ((m : Node) → child_at cs' idx ≡ some m → IsOrdered m → Grown w m m' new)
    → Grown (c ∷ w) (node cs nalloc e f) (node (replace_child cs' idx m') nalloc' e f) new
unfolding IsOrdered words
parent_Grown cs cs' c idx nalloc nalloc' f e w m' new o k room below =
    let (m, p, q) = child_at-find cs' c idx k.sorted k.stands in
    let g : Grown w m m' new = below m p (AreOrdered-child_at cs' idx (k.ordered o.1) p) in
    record {
      ordered = (
        rw chars-replace_child k.sorted,
        AreOrdered-replace_child cs' idx m' (k.ordered o.1) g.ordered,
        o.2,
        omega (arith, room.0, ap length (chars-replace_child cs' idx m')),
        room.1,
      );
      is_new = g.is_new ∙ ap (λ t. not t.0) (sym (entry_below k q w nalloc f e));
      tally = omega (arith, g.tally, k.tally, words_of-replace_child cs' idx m' m p);
      entries =
          entries_above k q w m' (true, ((entry (c ∷ w) (node cs nalloc e f)).1 + 1) % 2 ^ 32)
            (rw (entry_below k q w nalloc f e) g.entries) nalloc nalloc' f e;
    }

Slot-cases :
    (s : Slot)
    → ((cs : Children) × (nalloc : ℕ) × (idx : ℕ) × (s ≡ at cs nalloc idx))
      ⊎ (((cs : Children) × (nalloc : ℕ) × (s ≡ no_memory cs nalloc)) ⊎ (s ≡ corrupt))
Slot-cases (at cs nalloc idx) = inl (cs, nalloc, idx, refl)
Slot-cases (no_memory cs nalloc) = inr (inl (cs, nalloc, refl))
Slot-cases corrupt = inr (inr refl)

pub Inserted-cases :
    (r : Inserted)
    → ((n : Node) × (new : Bool) × (r ≡ inserted n new))
      ⊎ (((n : Node) × (r ≡ stopped n)) ⊎ (r ≡ broken))
Inserted-cases (inserted n new) = inl (n, new, refl)
Inserted-cases (stopped n) = inr (inl (n, refl))
Inserted-cases broken = inr (inr refl)

-- What a successful walk has found on its first step.
abbrev Stepped : (ℕ → Bool) → ℕ → List ℕ → Children → ℕ → ℕ → Bool → Node → Bool → Type 0
Stepped grants c w cs nalloc f e n' new =
    (cs' : Children) × (nalloc' : ℕ) × (idx : ℕ) × (m : Node) × (m' : Node) × (child_find_or_create
        grants cs nalloc c
      ≡ at cs' nalloc' idx)
    × (child_at cs' idx ≡ some m)
    × (insert_path grants w m ≡ inserted m' new)
    × (n' ≡ node (replace_child cs' idx m') nalloc' e f)

insert_path-Stepped :
    (grants : ℕ → Bool) (c : ℕ) (w : List ℕ) (cs : Children) (nalloc f : ℕ) (e : Bool) {n' : Node}
    {new : Bool}
    → insert_path grants (c ∷ w) (node cs nalloc e f) ≡ inserted n' new
    → Stepped grants c w cs nalloc f e n' new
unfolding insert_path
insert_path-Stepped grants c w cs nalloc f e {n'} {new} h =
    elim (Slot-cases (child_find_or_create grants cs nalloc c)) [
      | inr (inr q) ↦ absurd (ground arith)
      | inr (inl (cs', nalloc', q)) ↦ absurd (ground arith)
      | inl (cs', nalloc', idx, q) ↦ elim (Option-cases (child_at cs' idx)) [
        | inl r ↦ absurd (ground arith)
        | inr (m, r) ↦ elim (Inserted-cases (insert_path grants w m)) [
          | inl (m', new', t) ↦ (cs', nalloc', idx, m, m', q, r, ground arith, ground arith)
          | inr (inl (m', t)) ↦ absurd (ground arith)
          | inr (inr t) ↦ absurd (ground arith)
        ]
      ]
    ]

insert_path-nil :
    (grants : ℕ → Bool) (cs : Children) (nalloc f : ℕ) (e : Bool) {n' : Node} {new : Bool}
    → insert_path grants [] (node cs nalloc e f) ≡ inserted n' new
    → (node cs nalloc true ((f + 1) % 2 ^ 32) ≡ n') × (not e ≡ new)
unfolding insert_path
insert_path-nil grants cs nalloc f e h = ground arith

-- A successful insertion counts the word once more and marks it; it keeps every other word.
pub insert_path-Grown :
    (grants : ℕ → Bool) (w : List ℕ) (n : Node) {n' : Node} {new : Bool}
    → IsOrdered n
    → insert_path grants w n ≡ inserted n' new
    → Grown w n n' new
insert_path-Grown grants [] (node cs nalloc e f) {n'} {new} o h =
    let (p, q) = insert_path-nil grants cs nalloc f e h in
    subst₂ (λ a b. Grown [] (node cs nalloc e f) a b) p q (mark_Grown cs nalloc f e o)
insert_path-Grown grants (c ∷ w) (node cs nalloc e f) {n'} {new} o h =
    let (cs', nalloc', idx, m, m', q, r, t, u) = insert_path-Stepped grants c w cs nalloc f e h in
    rw u (
      parent_Grown cs cs' c idx nalloc nalloc' f e w m' new o
        (child_find_or_create-Created cs c (IsOrdered-IsSorted cs nalloc f e o) grants cs' idx
          nalloc nalloc' q)
        (let held = IsOrdered-room cs nalloc f e o in
          child_find_or_create-room grants cs nalloc held.0 held.1 c
            (IsOrdered-IsSorted cs nalloc f e o) cs' nalloc' idx q)
        (λ k p ok.
          let same : m ≡ k = cc in
          subst (λ z. Grown w z m' new) same
            (insert_path-Grown grants w m (subst IsOrdered (sym same) ok) t)))
