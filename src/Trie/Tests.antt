-- ===== src/Trie/Tests.antt =====
-- The functions of src/trie.c at a concrete trie.
use solidc.Base.{
  ℕ, zero, suc, ◌+◌, ◌≡◌, ◌⊎◌, refl, Bool, true, false, none, some, [], ◌∷◌, arith, ◌==◌, not,
}
use solidc.Trie.{
  Children, Node, Trie, to_int8, in_array, node, nil, child, empty_node, insert_path, broken,
  trie_insert, trie_search, trie_get_frequency, trie_delete, trie_starts_with, child_index,
  search_loop, child_find_or_create, create_child, grow, slot_from, insert_child, child_at,
  replace_child, navigate, descend, shifted, shift_from,
}
use solidc.Trie.Order.{IsOrdered, words}
use solidc.Trie.Room.{Leads, insert_path-broken}
use solidc.Trie.Api.{IsValid, AfterInsert, trie_insert_lem}
use solidc.Trie.Removal.{AfterDelete, trie_delete_lem}
use solidc.Trie.Total.{trie_insert_total}

abbrev grants_all : ℕ → Bool
grants_all n = true

-- "a" once and "ab" twice
abbrev below_a : Children
below_a = child 98 (node nil 0 true 2) nil

abbrev sample : Trie
sample = record { root = node (child 97 (node below_a 2 true 1) nil) 2 false 0; word_count = 2 }

sample-IsValid : IsValid sample
unfolding IsOrdered words
sample-IsValid = record {
  ordered = (
    (tt, tt),
    (
      (
        (tt, tt),
        ((tt, tt, λ h. cc, omega arith, omega arith), tt),
        λ h. cc,
        omega arith,
        omega arith,
      ),
      tt,
    ),
    λ _. refl,
    omega arith,
    omega arith,
  );
  counted = refl;
}

-- "ac" added
abbrev larger : Trie
larger = record {
  root =
      node
        (child 97 (node (child 98 (node nil 0 true 2) (child 99 (node nil 0 true 1) nil)) 2 true 1)
          nil)
        2 false 0;
  word_count = 3;
}

insert_runs : trie_insert grants_all (some sample) (some (97 ∷ 99 ∷ [])) ≡ some (true, some larger)
unfolding trie_insert insert_path child_find_or_create child_index search_loop create_child grow
    to_int8 in_array slot_from insert_child child_at replace_child
insert_runs = refl

reads :
    (trie_search (some sample) (some (97 ∷ 98 ∷ [])) ≡ true)
    × (trie_get_frequency (some sample) (some (97 ∷ 98 ∷ [])) ≡ 2)
    × (trie_search (some sample) (some (98 ∷ [])) ≡ false)
    × (trie_starts_with (some sample) (some (97 ∷ [])) ≡ true)
unfolding trie_search trie_get_frequency trie_starts_with navigate descend child_index search_loop
    child_at
reads = (refl, refl, refl, refl)

trie_insert_lem_example : AfterInsert sample (97 ∷ 99 ∷ []) larger
trie_insert_lem_example =
    trie_insert_lem sample sample-IsValid 97 (99 ∷ []) grants_all larger insert_runs

trie_insert_total_example :
    (t' : Trie) × (trie_insert grants_all (some sample) (some (97 ∷ 99 ∷ []))
      ≡ some (true, some t'))
    × AfterInsert sample (97 ∷ 99 ∷ []) t'
trie_insert_total_example =
    trie_insert_total grants_all sample 97 (99 ∷ []) (λ n. refl) sample-IsValid (omega arith)

trie_delete_lem_example :
    ((trie_search (some sample) (some (97 ∷ [])) ≡ true)
      × (t' : Trie) × (trie_delete (some sample) (some (97 ∷ [])) ≡ (true, some t'))
      × AfterDelete sample (97 ∷ []) t')
    ⊎ ((trie_search (some sample) (some (97 ∷ [])) ≡ false)
        × (trie_delete (some sample) (some (97 ∷ [])) ≡ (false, some sample)))
trie_delete_lem_example = trie_delete_lem sample sample-IsValid 97 []

-- `n` children, of the bytes from `b` on
abbrev many : ℕ → ℕ → Children
many zero b = nil
many (suc n) b = child b empty_node (many n (b + 1))

absent : child_index (many 128 1) 200 ≡ none
unfolding child_index search_loop
absent = refl

-- 128 children below "a"
abbrev crowded : Node
crowded = node (child 97 (node (many 128 1) 128 false 0) nil) 2 false 0

crowded-Leads : Leads (97 ∷ []) crowded (node (many 128 1) 128 false 0)
unfolding Leads child_index search_loop child_at
crowded-Leads = (0, _, refl, refl, refl)

insert_path-broken_example : insert_path grants_all (97 ∷ 200 ∷ []) crowded ≡ broken
insert_path-broken_example =
    insert_path-broken grants_all (λ n. refl) (97 ∷ []) [] crowded 200 128 0 false (many 128 1)
      crowded-Leads (omega arith) absent

-- The allocator refuses a node after the arrays have grown and shifted: the call reports a failure,
-- and the word of the last child is lost.
abbrev no_nodes : ℕ → Bool
no_nodes n = not (n == 24)

abbrev two_words : Trie
two_words = record {
  root = node (child 98 (node nil 0 true 1) (child 100 (node nil 0 true 1) nil)) 4 false 0;
  word_count = 2;
}

abbrev after_failure : Trie
after_failure = record {
  root = node (child 98 (node nil 0 true 1) (child 98 (node nil 0 true 1) nil)) 4 false 0;
  word_count = 2;
}

loses_a_word :
    (trie_search (some two_words) (some (100 ∷ [])) ≡ true)
    × (trie_insert no_nodes (some two_words) (some (97 ∷ [])) ≡ some (false, some after_failure))
    × (trie_search (some after_failure) (some (100 ∷ [])) ≡ false)
unfolding trie_search trie_insert insert_path child_find_or_create child_index search_loop
    create_child to_int8 in_array grow slot_from shifted shift_from child_at navigate descend
loses_a_word = (refl, refl, refl)
