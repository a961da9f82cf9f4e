-- ===== src/HashMap/Insert.antt =====
-- What an entry written over an empty or a richer slot leaves, in src/map.c.
use mathlib.Core.Path.{subst}
use solidc.Base.{
  ℕ, ◌≤◌, ◌<◌, ◌≡◌, ◌≢◌, sym, ap, ◌∙◌, ◌⊎◌, inl, inr, List, arith, ◌==◌, length, set, length-set,
  Bool-cases, ==→eq, ==→ne,
}
use solidc.HashMap.{Slot, entry, slot_at}
use solidc.HashMap.Slots.{slot_at-set_same, slot_at-set_other, entry_inj}
use solidc.HashMap.Probe.{along, AtLeast, Passed, Missing, Arranged}

pub index_cases : (i j : ℕ) → (i ≡ j) ⊎ (i ≢ j)
index_cases i j = elim (Bool-cases (i == j)) [
  | inl same ↦ inl (==→eq i j same)
  | inr other ↦ inr (==→ne i j other)
]

module _ {ℓ} {K V : Type ℓ} (slots : List (Slot K V)) (idx : ℕ) (k : K) (v : V) (d : ℕ)
    (inside : idx < length slots) where
  abbrev pub written : List (Slot K V)
  written = set slots idx (entry k v d)

  pub reads :
      (j : ℕ) (x : K) (w : V) (f : ℕ)
      → slot_at written j ≡ entry x w f
      → ((idx ≡ j) × (k ≡ x) × (v ≡ w) × (d ≡ f)) ⊎ ((idx ≢ j) × (slot_at slots j ≡ entry x w f))
  reads j x w f e = elim (index_cases idx j) [
    | inl same ↦
        let both =
          entry_inj (
            sym (slot_at-set_same slots idx (entry k v d) inside)
            ∙ ap (slot_at written) same
            ∙ e) in
        inl (same, both.0, both.1, both.2)
    | inr other ↦ inr (other, sym (slot_at-set_other slots idx j (entry k v d) other) ∙ e)
  ]

  pub AtLeast-written :
      ((e : ℕ) → AtLeast slots idx e → e ≤ d) → (p e : ℕ) → AtLeast slots p e → AtLeast written p e
  AtLeast-written richer p e a = elim (index_cases idx p) [
    | inl same ↦ (
      k,
      v,
      d,
      ap (slot_at written) (sym same) ∙ slot_at-set_same slots idx (entry k v d) inside,
      richer e (a.0, a.1, a.2, ap (slot_at slots) same ∙ a.3, a.4),
    )
    | inr other ↦ (a.0, a.1, a.2, slot_at-set_other slots idx p (entry k v d) other ∙ a.3, a.4)
  ]

  pub Passed-written :
      ((e : ℕ) → AtLeast slots idx e → e ≤ d)
      → (home f : ℕ) → Passed slots home f
      → Passed written home f
  Passed-written richer home f p e h =
      AtLeast-written richer (along (length written) home e) e
        (rw (length-set slots idx (entry k v d)) (p e h))

  module _ (home : K → ℕ) (arranged : Arranged home slots) (low : d < length slots)
      (here : idx ≡ along (length slots) (home k) d) (way : Passed slots (home k) d)
      (missing : Missing slots k) (richer : (e : ℕ) → AtLeast slots idx e → e ≤ d) where
    same_length : length written ≡ length slots
    same_length = length-set slots idx (entry k v d)

    stands_written :
        (j : ℕ) (x : K) (w : V) (f : ℕ)
        → slot_at written j ≡ entry x w f
        → (j ≡ along (length written) (home x) f) × (f < length written)
    stands_written j x w f e = elim (reads j x w f e) [
      | inl (same, kx, vw, df) ↦ (
        sym same
            ∙ here
            ∙ ap (λ n. along n (home k) d) (sym same_length)
            ∙ ap (λ y. along (length written) (home y) d) kx
            ∙ ap (λ g. along (length written) (home x) g) df,
        omega (arith, same_length),
      )
      | inr (other, old) ↦
          let s = arranged.stands j x w f old in
          (s.0 ∙ ap (λ n. along n (home x) f) (sym same_length), omega (arith, same_length, s.1))
    ]

    Passed-all :
        (j : ℕ) (x : K) (w : V) (f : ℕ)
        → slot_at written j ≡ entry x w f
        → Passed written (home x) f
    Passed-all j x w f e = elim (reads j x w f e) [
      | inl (same, kx, vw, df) ↦
          subst (λ y. Passed written (home y) f) kx
            (subst (λ g. Passed written (home k) g) df (Passed-written richer (home k) d way))
      | inr (other, old) ↦ Passed-written richer (home x) f (arranged.passed j x w f old)
    ]

    single_written :
        (i j : ℕ) (x : K) (w u : V) (f g : ℕ)
        → slot_at written i ≡ entry x w f
        → slot_at written j ≡ entry x u g
        → i ≡ j
    single_written i j x w u f g a b = elim (reads i x w f a) [
      | inl (same, kx, _, _) ↦ elim (reads j x u g b) [
        | inl (same', _, _, _) ↦ sym same ∙ same'
        | inr (_, old) ↦ absurd (missing j u g (old ∙ ap (λ y. entry y u g) (sym kx)))
      ]
      | inr (_, old) ↦ elim (reads j x u g b) [
        | inl (_, kx, _, _) ↦ absurd (missing i w f (old ∙ ap (λ y. entry y w f) (sym kx)))
        | inr (_, old') ↦ arranged.single i j x w u f g old old'
      ]
    ]

    pub written-Arranged : Arranged home written
    written-Arranged = record {
      stands = stands_written;
      passed = Passed-all;
      single = single_written;
    }
