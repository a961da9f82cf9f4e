-- ===== src/Trie/Api.antt =====
-- The public functions of src/trie.c on well-formed tries.
use mathlib.Core.Path.{subst}
use solidc.Base.{
  ℕ, ◌+◌, ◌%◌, ◌^◌, ◌≡◌, refl, ap, ◌⊎◌, inl, inr, Bool, true, some, List, [], ◌∷◌, arith,
  if◌then◌else◌,
}
use solidc.Trie.{
  Node, Trie, inserted, stopped, broken, insert_path, trie_insert, trie_search, trie_get_frequency,
}
use solidc.Trie.Order.{IsOrdered, words}
use solidc.Trie.Words.{entry, same_word, navigate-entry, entry_unmarked, eq_of_same_word}
use solidc.Trie.Insert.{Grown, insert_path-Grown, Inserted-cases}

-- The tree is in order, and `word_count` counts the words that it marks.
pub record IsValid (t : Trie) : Type 0 where
  pub ordered : IsOrdered t.root
  pub counted : t.word_count ≡ words t.root

module _ (t : Trie) (v : IsValid t) (c : ℕ) (w : List ℕ) where
  pub search-entry : trie_search (some t) (some (c ∷ w)) ≡ (entry (c ∷ w) t.root).0
  unfolding trie_search
  search-entry = ground (arith, navigate-entry (c ∷ w) t.root v.ordered)

  pub frequency-entry :
      trie_get_frequency (some t) (some (c ∷ w))
      ≡ (if (entry (c ∷ w) t.root).0 then (entry (c ∷ w) t.root).1 else 0)
  unfolding trie_get_frequency
  frequency-entry = ground (arith, navigate-entry (c ∷ w) t.root v.ordered)

pub search-nil : (t u : Trie) → trie_search (some t) (some []) ≡ trie_search (some u) (some [])
unfolding trie_search
search-nil t u = refl

pub frequency-nil :
    (t u : Trie) → trie_get_frequency (some t) (some []) ≡ trie_get_frequency (some u) (some [])
unfolding trie_get_frequency
frequency-nil t u = refl

-- What the public functions say after a successful insertion of `w`.
pub record AfterInsert (t : Trie) (w : List ℕ) (t' : Trie) : Type 0 where
  pub valid : IsValid t'
  pub searches :
      (v : List ℕ)
      → trie_search (some t') (some v)
        ≡ (if same_word w v then true else trie_search (some t) (some v))
  pub frequencies :
      (v : List ℕ)
      → trie_get_frequency (some t') (some v) ≡ (
          if same_word w v
          then (trie_get_frequency (some t) (some v) + 1) % 2 ^ 32
          else trie_get_frequency (some t) (some v))
  pub counts : t'.word_count ≡ t.word_count + (if trie_search (some t) (some w) then 0 else 1)

module _ (grants : ℕ → Bool) (t t' : Trie) (c : ℕ) (w : List ℕ)
    (h : trie_insert grants (some t) (some (c ∷ w)) ≡ some (true, some t')) where
  insert_result :
      (n' : Node) (new : Bool)
      → insert_path grants (c ∷ w) t.root ≡ inserted n' new
      → record { root = n'; word_count = if new then t.word_count + 1 else t.word_count } ≡ t'
  unfolding trie_insert
  insert_result n' new e = ground arith

  insert_failed :
      ((n : Node) × (insert_path grants (c ∷ w) t.root ≡ stopped n))
        ⊎ (insert_path grants (c ∷ w) t.root ≡ broken)
      → ⊥
  unfolding trie_insert
  insert_failed other = ground arith

module _ (t : Trie) (v : IsValid t) (c : ℕ) (w : List ℕ) where
  after_insert :
      (n' : Node) (new : Bool)
      → Grown (c ∷ w) t.root n' new
      → AfterInsert t
          (c ∷ w)
          (record { root = n'; word_count = if new then t.word_count + 1 else t.word_count })
  after_insert n' new g = record {
    valid = valid;
    searches = searches;
    frequencies = frequencies;
    counts = ground (arith, g.is_new, search-entry t v c w);
  }
    where
      t' : Trie
      t' = record { root = n'; word_count = if new then t.word_count + 1 else t.word_count }

      valid : IsValid t'
      valid = record { ordered = g.ordered; counted = ground (arith, g.tally, v.counted) }

      searches :
          (u : List ℕ)
          → trie_search (some t') (some u)
            ≡ (if same_word (c ∷ w) u then true else trie_search (some t) (some u))
      searches [] = search-nil t' t
      searches (d ∷ u) =
          ground (arith, search-entry t' valid d u, search-entry t v d u, g.entries (d ∷ u))

      frequencies :
          (u : List ℕ)
          → trie_get_frequency (some t') (some u) ≡ (
              if same_word (c ∷ w) u
              then (trie_get_frequency (some t) (some u) + 1) % 2 ^ 32
              else trie_get_frequency (some t) (some u))
      frequencies [] = frequency-nil t' t
      frequencies (d ∷ u) = ground (
        arith,
        frequency-entry t' valid d u,
        frequency-entry t v d u,
        g.entries (d ∷ u),
        entry_unmarked (d ∷ u) t.root v.ordered,
        λ (e : same_word (c ∷ w) (d ∷ u) ≡ true).
            ap (λ x. entry x t.root) (eq_of_same_word (c ∷ w) (d ∷ u) e),
      )

  -- An insertion into a well-formed trie that returns true leaves a well-formed trie. There the
  -- word is found and counted once more (modulo 2^32), every other word is found and counted as
  -- before, and `word_count` has grown by one exactly if the word was not found before.
  pub trie_insert_lem :
      (grants : ℕ → Bool) (t' : Trie)
      → trie_insert grants (some t) (some (c ∷ w)) ≡ some (true, some t')
      → AfterInsert t (c ∷ w) t'
  trie_insert_lem grants t' h = elim (Inserted-cases (insert_path grants (c ∷ w) t.root)) [
    | inl (n', new, e) ↦
        subst (AfterInsert t (c ∷ w)) (insert_result grants t t' c w h n' new e)
          (after_insert n' new (insert_path-Grown grants (c ∷ w) t.root v.ordered e))
    | inr other ↦ absurd (insert_failed grants t t' c w h other)
  ]
