-- ===== src/Trie/Total.antt =====
-- `trie_insert` of src/trie.c goes through where memory and room are at hand.
use solidc.Base.{ℕ, ◌≡◌, Bool, true, List, ◌∷◌, some, if◌then◌else◌, ◌+◌}
use solidc.Trie.{Trie, trie_insert}
use solidc.Trie.Room.{Roomy, insert_path-inserted}
use solidc.Trie.Api.{IsValid, AfterInsert, trie_insert_lem}

-- With an allocator that meets every request and fewer than 128 children in each node on the way,
-- `trie_insert` into a well-formed trie returns true, and what a successful insertion promises
-- holds: the trie stays well-formed, the word is found and counted once more, other words are as
-- before, and `word_count` grows by one exactly if the word is new.
pub trie_insert_total :
    (grants : ℕ → Bool) (t : Trie) (c : ℕ) (w : List ℕ)
    → ((n : ℕ) → grants n ≡ true)
    → IsValid t
    → Roomy (c ∷ w) t.root
    → (t' : Trie) × (trie_insert grants (some t) (some (c ∷ w)) ≡ some (true, some t'))
      × AfterInsert t (c ∷ w) t'
unfolding trie_insert
trie_insert_total grants t c w generous v r =
    let (n', new, e) = insert_path-inserted grants generous (c ∷ w) t.root v.ordered r in
    let t' : Trie = record {
      root = n';
      word_count = if new then t.word_count + 1 else t.word_count;
    } in
    let done : trie_insert grants (some t) (some (c ∷ w)) ≡ some (true, some t') =
      rw (e, trie_insert) in
    (t', done, trie_insert_lem t v c w grants t' done)
