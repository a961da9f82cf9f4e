-- ===== src/Trie.antt =====
-- src/trie.c: a prefix tree whose nodes keep their children sorted by byte. The parallel arrays
-- `chars` and `children` are one list of pairs, and `nchildren` is its length. A pointer that the
-- code tests against NULL is an `Option`; the allocator is a parameter, as in the other models.
pub mod Search
pub mod Edges
pub mod Create
pub mod Arrays
pub mod Order
pub mod Words
pub mod Insert
pub mod Delete
pub mod Api
pub mod Removal
pub mod Total
pub mod Room
mod Tests
use solidc.Base.{
  ℕ, zero, suc, ◌+◌, ◌-◌, ◌*◌, ◌/◌, ◌%◌, ◌^◌, Bool, true, false, not, ◌&&◌, Option, none, some,
  List, [], ◌∷◌, ltb, leb, ◌==◌, if◌then◌else◌, get_or, length,
}

-- `trie_node`: its children, `nalloc`, `is_end_of_word` and `frequency`
mutual
  pub data Node : Type 0 where
    node : Children → ℕ → Bool → ℕ → Node

  pub data Children : Type 0 where
    nil : Children
    child : ℕ → Node → Children → Children

-- `trie_t`
pub record Trie : Type 0 where
  pub root : Node
  pub word_count : ℕ

-- what `node_create` gives
abbrev pub empty_node : Node
empty_node = node nil 0 false 0

abbrev pub node_size : ℕ
node_size = 24

abbrev pub chars : Children → List ℕ
chars nil = []
chars (child c n cs) = c ∷ chars cs

abbrev pub nchildren : Children → ℕ
nchildren cs = length (chars cs)

pub child_at : Children → ℕ → Option Node
child_at nil i = none
child_at (child c n cs) zero = some n
child_at (child c n cs) (suc i) = child_at cs i

pub replace_child : Children → ℕ → Node → Children
replace_child nil i m = nil
replace_child (child c n cs) zero m = child c m cs
replace_child (child c n cs) (suc i) m = child c n (replace_child cs i m)

-- The shift to the right from `pos` on, and the write at `pos`.
pub insert_child : Children → ℕ → ℕ → Node → Children
insert_child cs zero c m = child c m cs
insert_child nil (suc pos) c m = nil
insert_child (child b n cs) (suc pos) c m = child b n (insert_child cs pos c m)

-- The shift alone, with `nchildren` as it was: the child at `pos` stands twice, the last is lost.
pub shift_from : ℕ → Node → Children → Children
shift_from c n nil = nil
shift_from c n (child b m cs) = child c n (shift_from b m cs)

pub shifted : Children → ℕ → Children
shifted nil pos = nil
shifted (child c n cs) zero = child c n (shift_from c n cs)
shifted (child c n cs) (suc pos) = child c n (shifted cs pos)

-- The loop of `child_index` on fuel; `end` is `hi + 1`, so that `hi` may be -1.
pub search_loop : ℕ → List ℕ → ℕ → ℕ → ℕ → Option ℕ
search_loop zero xs c lo end = none
search_loop (suc fuel) xs c lo end =
    let mid = (lo + (end - 1)) / 2 in
    let right = search_loop fuel xs c (mid + 1) end in
    let left = search_loop fuel xs c lo mid in
    if ltb lo end
    then (if get_or xs mid 0 == c
        then some mid
        else if ltb (get_or xs mid 0) c
        then right
        else left)
    else none

-- `child_index`: `none` is -1
pub child_index : Children → ℕ → Option ℕ
child_index cs c = search_loop (suc (nchildren cs)) (chars cs) c 0 (nchildren cs)

-- What the growth of the two arrays comes to. If one request is met and the other refused, the
-- node still points to an array that is freed.
pub data Growth : Type 0 where
  grown : ℕ → Growth
  refused dangling : Growth

-- The position that the insertion finds: `pos` goes down while `chars[pos - 1] > c`.
pub slot_from : ℕ → List ℕ → ℕ → ℕ
slot_from zero xs c = 0
slot_from (suc pos) xs c = if ltb c (get_or xs pos 0) then slot_from pos xs c else suc pos

-- The result of `child_find_or_create`: the children, `nalloc`, and the child's index; NULL with
-- what is left of the node; or a write out of bounds or a dangling array.
pub data Slot : Type 0 where
  at : Children → ℕ → ℕ → Slot
  no_memory : Children → ℕ → Slot
  corrupt : Slot

-- A number of type int8_t: `before k` is -1 - k.
pub data Position : Type 0 where
  index before : ℕ → Position

-- `(int8_t)n` of a `uint8_t`
pub to_int8 : ℕ → Position
to_int8 n = if ltb n 128 then index n else before (255 - n)

-- Whether a position lies in arrays of `nalloc` elements.
pub in_array : Position → ℕ → Bool
in_array (index i) nalloc = ltb i nalloc
in_array (before k) nalloc = false

module _ (grants : ℕ → Bool) where
  pub grow : Children → ℕ → Growth
  grow cs nalloc =
      if nchildren cs == nalloc
      then (let doubled = if nalloc == 0 then 2 else nalloc * 2 % 256 in
          let new_alloc = if ltb doubled nalloc then 255 else doubled in
          if grants new_alloc
          then (if grants (new_alloc * 8) then grown new_alloc else dangling)
          else (if grants (new_alloc * 8) then dangling else refused))
      else grown nalloc

  -- What comes behind the growth. The loop of the shift writes at `pos` first where it runs at all, and
  -- it does not run from a negative `pos`.
  pub create_child : Children → ℕ → ℕ → Slot
  create_child cs nalloc c = elim (to_int8 (nchildren cs)) [
    | index last ↦
        let pos = slot_from last (chars cs) c in
        if ltb pos last && not (in_array (index last) nalloc)
        then corrupt
        else if grants node_size
        then (if in_array (index pos) nalloc
            then at (insert_child cs pos c empty_node) nalloc pos
            else corrupt)
        else no_memory (shifted cs pos) nalloc
    | before k ↦
        if grants node_size
        then (if in_array (before k) nalloc then at cs nalloc 0 else corrupt)
        else no_memory cs nalloc
  ]

  -- `child_find_or_create`
  pub child_find_or_create : Children → ℕ → ℕ → Slot
  child_find_or_create cs nalloc c = elim (child_index cs c) [
    | some idx ↦ at cs nalloc idx
    | none ↦ elim (grow cs nalloc) [
      | grown new_alloc ↦ create_child cs new_alloc c
      | refused ↦ no_memory cs nalloc
      | dangling ↦ corrupt
    ]
  ]

-- The result of the loop of `trie_insert`: the tree and whether the word is new; the tree when the
-- loop stops for lack of memory; or a broken tree.
pub data Inserted : Type 0 where
  inserted : Node → Bool → Inserted
  stopped : Node → Inserted
  broken : Inserted

-- The child is put back under its parent.
abbrev pub put_back : Children → ℕ → Bool → ℕ → ℕ → Inserted → Inserted
put_back cs nalloc e f idx (inserted n new) =
    inserted (node (replace_child cs idx n) nalloc e f) new
put_back cs nalloc e f idx (stopped n) = stopped (node (replace_child cs idx n) nalloc e f)
put_back cs nalloc e f idx broken = broken

pub insert_path : (ℕ → Bool) → List ℕ → Node → Inserted
insert_path grants [] (node cs nalloc e f) =
    inserted (node cs nalloc true ((f + 1) % 2 ^ 32)) (not e)
insert_path grants (c ∷ w) (node cs nalloc e f) = elim (child_find_or_create grants cs nalloc c) [
  | corrupt ↦ broken
  | no_memory cs' nalloc' ↦ stopped (node cs' nalloc' e f)
  | at cs' nalloc' idx ↦ elim (child_at cs' idx) [
    | none ↦ broken
    | some n ↦ put_back cs' nalloc' e f idx (insert_path grants w n)
  ]
]

-- `none` stands for a trie that is broken.
pub trie_insert : (ℕ → Bool) → Option Trie → Option (List ℕ) → Option (Bool × Option Trie)
trie_insert grants none word = some (false, none)
trie_insert grants (some t) none = some (false, some t)
trie_insert grants (some t) (some []) = some (false, some t)
trie_insert grants (some t) (some (c ∷ w)) = elim (insert_path grants (c ∷ w) t.root) [
  | inserted n new ↦ some (
    true,
    some (record { root = n; word_count = if new then t.word_count + 1 else t.word_count }),
  )
  | stopped n ↦ some (false, some (record t { root = n }))
  | broken ↦ none
]

-- One step of the walks below: the child of byte `c`.
pub descend : Children → ℕ → Option Node
descend cs c = elim (child_index cs c) [ none ↦ none | some idx ↦ child_at cs idx ]

-- The walk of `trie_search` and the others; `none` where a child is missing.
pub navigate : List ℕ → Node → Option Node
navigate [] n = some n
navigate (c ∷ w) (node cs nalloc e f) = elim (descend cs c) [ none ↦ none | some n ↦ navigate w n ]

abbrev pub is_end_of_word : Node → Bool
is_end_of_word (node cs nalloc e f) = e

abbrev pub frequency : Node → ℕ
frequency (node cs nalloc e f) = f

pub trie_search : Option Trie → Option (List ℕ) → Bool
trie_search none word = false
trie_search (some t) none = false
trie_search (some t) (some []) = false
trie_search (some t) (some (c ∷ w)) = elim (navigate (c ∷ w) t.root) [
  | none ↦ false
  | some n ↦ is_end_of_word n
]

pub trie_starts_with : Option Trie → Option (List ℕ) → Bool
trie_starts_with none prefix = false
trie_starts_with (some t) none = false
trie_starts_with (some t) (some []) = false
trie_starts_with (some t) (some (c ∷ w)) = elim (navigate (c ∷ w) t.root) [
  | none ↦ false
  | some n ↦ true
]

pub trie_get_frequency : Option Trie → Option (List ℕ) → ℕ
trie_get_frequency none word = 0
trie_get_frequency (some t) none = 0
trie_get_frequency (some t) (some []) = 0
trie_get_frequency (some t) (some (c ∷ w)) = elim (navigate (c ∷ w) t.root) [
  | none ↦ 0
  | some n ↦ if is_end_of_word n then frequency n else 0
]

-- The walk of `trie_delete` and its writes to the last node; `none` if the word is not there.
pub delete_path : List ℕ → Node → Option Node
delete_path [] (node cs nalloc e f) = if e then some (node cs nalloc false 0) else none
delete_path (c ∷ w) (node cs nalloc e f) = elim (child_index cs c) [
  | none ↦ none
  | some idx ↦ elim (child_at cs idx) [
    | none ↦ none
    | some n ↦ elim (delete_path w n) [
      | none ↦ none
      | some n' ↦ some (node (replace_child cs idx n') nalloc e f)
    ]
  ]
]

pub trie_delete : Option Trie → Option (List ℕ) → Bool × Option Trie
trie_delete none word = (false, none)
trie_delete (some t) none = (false, some t)
trie_delete (some t) (some []) = (false, some t)
trie_delete (some t) (some (c ∷ w)) = elim (delete_path (c ∷ w) t.root) [
  | none ↦ (false, some t)
  | some n ↦ (true, some (record { root = n; word_count = t.word_count - 1 }))
]

pub trie_get_word_count : Option Trie → ℕ
trie_get_word_count none = 0
trie_get_word_count (some t) = t.word_count

pub trie_is_empty : Option Trie → Bool
trie_is_empty none = true
trie_is_empty (some t) = t.word_count == 0
