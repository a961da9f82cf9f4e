-- ===== src/HashMap/Resize.antt =====
-- map_resize of src/map.c: every entry is stored again.
use mathlib.Core.Path.{subst}
use solidc.Base.{
  ℕ, zero, suc, ◌+◌, ◌≡◌, ◌≢◌, refl, sym, ap, ◌∙◌, ◌⊎◌, inl, inr, List, ◌∷◌, arith, length,
  replicate,
}
use solidc.HashMap.{Slot, empty, entry, slot_at}
use solidc.HashMap.Slots.{occupied, slot_at-replicate, entry_inj}
use solidc.HashMap.Probe.{Contains, Missing, Arranged}
use solidc.HashMap.Store.{Added}

module _ {ℓ} {K V : Type ℓ} where
  -- No two entries have one key.
  abbrev pub Single : List (Slot K V) → Type ℓ
  Single slots =
      (i j : ℕ) (k : K) (v w : V) (d e : ℕ)
      → slot_at slots i ≡ entry k v d
      → slot_at slots j ≡ entry k w e
      → i ≡ j

  -- No entry of `old` has a key of `slots`.
  abbrev pub Apart : List (Slot K V) → List (Slot K V) → Type ℓ
  Apart old slots = (i : ℕ) (k : K) (v : V) (d : ℕ) → slot_at old i ≡ entry k v d → Missing slots k

  pub Single-tail : (s : Slot K V) (old : List (Slot K V)) → Single (s ∷ old) → Single old
  Single-tail s old h i j k v w d e a b = suc_inj (h (suc i) (suc j) k v w d e a b)
    where
      suc_inj : {a b : ℕ} → suc a ≡ suc b → a ≡ b
      suc_inj p = omega arith

  pub fresh-Arranged : (home : K → ℕ) (n : ℕ) → Arranged {V = V} home (replicate n empty)
  fresh-Arranged home n = record {
    stands = λ i k v d e. absurd (no_entry i k v d e);
    passed = λ i k v d e. absurd (no_entry i k v d e);
    single = λ i j k v w d e a b. absurd (no_entry i k v d a);
  }
    where
      no_entry :
          (i : ℕ) (k : K) (v : V) (d : ℕ)
          → slot_at {K = K} {V = V} (replicate n empty) i ≢ entry k v d
      no_entry i k v d e = let clash = sym (slot_at-replicate K V n i) ∙ e in cc clash

  -- The entries of `old` are added to `slots`.
  pub record Joined (home : K → ℕ) (slots old slots' : List (Slot K V)) : Type ℓ where
    pub arranged : Arranged home slots'
    pub width : length slots' ≡ length slots
    pub count : occupied slots' ≡ occupied slots + occupied old
    pub keeps : (x : K) (w : V) → Contains slots x w → Contains slots' x w
    pub joins : (x : K) (w : V) → Contains old x w → Contains slots' x w
    pub only : (x : K) (w : V) → Contains slots' x w → Contains slots x w ⊎ Contains old x w

  module _ (home : K → ℕ) (k : K) (v : V) (d : ℕ) (old slots between slots' : List (Slot K V)) where
    pub Joined-cons :
        Added home slots k v between
        → Joined home between old slots'
        → Joined home slots (entry k v d ∷ old) slots'
    Joined-cons a j = record {
      arranged = j.arranged;
      width = j.width ∙ a.width;
      count = omega (arith, j.count, a.count);
      keeps = λ x w c. j.keeps x w (a.keeps x w c);
      joins = joins_cons;
      only = λ x w c. elim (j.only x w c) [
        | inr (i, e, there) ↦ inr (suc i, e, there)
        | inl c' ↦ elim (a.only x w c') [
          | inl older ↦ inl older
          | inr (kx, vw) ↦
              inr (0, d, ap (λ y. entry y v d) (sym kx) ∙ ap (λ u. entry x u d) (sym vw))
        ]
      ];
    }
      where
        joins_cons : (x : K) (w : V) → Contains (entry k v d ∷ old) x w → Contains slots' x w
        joins_cons x w (zero, e, here) =
            let both = entry_inj here in
            subst (λ y. Contains slots' y w) both.0
              (subst (λ u. Contains slots' k u) both.1 (j.keeps k v a.adds))
        joins_cons x w (suc i, e, there) = j.joins x w (i, e, there)

    pub Apart-cons :
        Single (entry k v d ∷ old)
        → Apart (entry k v d ∷ old) slots
        → Added home slots k v between
        → Apart old between
    Apart-cons single apart a i x w f e j u g c = elim (a.only x u (j, g, c)) [
      | inl (j', g', older) ↦ apart (suc i) x w f e j' u g' older
      | inr (kx, _) ↦
          let clash = single zero (suc i) k v w d f refl (e ∙ ap (λ y. entry y w f) kx) in
          omega arith
    ]
