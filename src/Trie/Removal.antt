-- ===== src/Trie/Removal.antt =====
-- `trie_delete` of src/trie.c on well-formed tries.
use solidc.Base.{
  ℕ, ◌+◌, ◌-◌, ◌≡◌, ◌∙◌, ◌⊎◌, inl, inr, true, false, some, List, [], ◌∷◌, arith, if◌then◌else◌,
}
use solidc.Trie.{Node, Trie, trie_search, trie_get_frequency, trie_delete}
use solidc.Trie.Words.{same_word}
use solidc.Trie.Delete.{Shrunk, delete_path_lem}
use solidc.Trie.Api.{IsValid, search-entry, frequency-entry, search-nil, frequency-nil}

-- What the public functions say after `w` is deleted.
pub record AfterDelete (t : Trie) (w : List ℕ) (t' : Trie) : Type 0 where
  pub valid : IsValid t'
  pub searches :
      (v : List ℕ)
      → trie_search (some t') (some v)
        ≡ (if same_word w v then false else trie_search (some t) (some v))
  pub frequencies :
      (v : List ℕ)
      → trie_get_frequency (some t') (some v)
        ≡ (if same_word w v then 0 else trie_get_frequency (some t) (some v))
  pub counts : t'.word_count + 1 ≡ t.word_count

module _ (t : Trie) (v : IsValid t) (c : ℕ) (w : List ℕ) where
  after_delete :
      (n' : Node)
      → Shrunk (c ∷ w) t.root n'
      → AfterDelete t (c ∷ w) (record { root = n'; word_count = t.word_count - 1 })
  after_delete n' g = record {
    valid = valid;
    searches = searches;
    frequencies = frequencies;
    counts = omega (arith, g.tally, v.counted);
  }
    where
      t' : Trie
      t' = record { root = n'; word_count = t.word_count - 1 }

      valid : IsValid t'
      valid = record { ordered = g.ordered; counted = omega (arith, g.tally, v.counted) }

      searches :
          (u : List ℕ)
          → trie_search (some t') (some u)
            ≡ (if same_word (c ∷ w) u then false else trie_search (some t) (some u))
      searches [] = search-nil t' t
      searches (d ∷ u) =
          ground (arith, search-entry t' valid d u, search-entry t v d u, g.entries (d ∷ u))

      frequencies :
          (u : List ℕ)
          → trie_get_frequency (some t') (some u)
            ≡ (if same_word (c ∷ w) u then 0 else trie_get_frequency (some t) (some u))
      frequencies [] = frequency-nil t' t
      frequencies (d ∷ u) =
          ground (arith, frequency-entry t' valid d u, frequency-entry t v d u, g.entries (d ∷ u))

  -- `trie_delete` of a word that is found returns true and leaves a well-formed trie, in which the
  -- word is not found, has frequency 0, every other word is as before, and `word_count` is one
  -- less. Of a word that is not found it returns false and changes nothing.
  pub trie_delete_lem :
      ((trie_search (some t) (some (c ∷ w)) ≡ true)
        × (t' : Trie) × (trie_delete (some t) (some (c ∷ w)) ≡ (true, some t'))
        × AfterDelete t (c ∷ w) t')
      ⊎ ((trie_search (some t) (some (c ∷ w)) ≡ false)
          × (trie_delete (some t) (some (c ∷ w)) ≡ (false, some t)))
  unfolding trie_delete
  trie_delete_lem = elim (delete_path_lem (c ∷ w) t.root v.ordered) [
    | inl (n', e, g) ↦
        inl (search-entry t v c w ∙ g.was_in, _, rw (e, trie_delete), after_delete n' g)
    | inr (e, out) ↦ inr (search-entry t v c w ∙ out, rw (e, trie_delete))
  ]
