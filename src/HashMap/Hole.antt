-- ===== src/HashMap/Hole.antt =====
-- The table of src/map.c while map_remove shifts entries back: one slot, the hole, does not count.
use mathlib.Core.Path.{subst}
use native.Mathlib.Nat.{mod_self, mod-eq_of_lt}
use solidc.Base.{
  ℕ, suc, ◌+◌, ◌%◌, ◌<◌, ◌≡◌, ◌≢◌, sym, ap, ◌∙◌, ◌⊎◌, inl, inr, List, arith, ltb, length,
  Bool-cases, ltb→lt, ltb→ge,
}
use solidc.HashMap.{Slot, entry, slot_at}
use solidc.HashMap.Probe.{along, along-suc, AtLeast, Arranged}
use solidc.HashMap.Insert.{index_cases}
use solidc.HashMap.Store.{after}

-- The slot after `i`, among `n` of them.
after-cases :
    (n i : ℕ) → i < n → ((suc i < n) × ((i + 1) % n ≡ i + 1)) ⊎ ((suc i ≡ n) × ((i + 1) % n ≡ 0))
after-cases n i h = elim (Bool-cases (ltb (i + 1) n)) [
  | inl within ↦
      inl (omega (arith, ltb→lt (i + 1) n within), mod-eq_of_lt (ltb→lt (i + 1) n within))
  | inr beyond ↦
      let last : i + 1 ≡ n = omega (arith, ltb→ge (i + 1) n beyond) in
      inr (omega arith, ap (λ t. t % n) last ∙ mod_self n)
]

pub after_inj : (n i j : ℕ) → i < n → j < n → (i + 1) % n ≡ (j + 1) % n → i ≡ j
after_inj n i j h k e = elim (after-cases n i h) [
  | inl (a, b) ↦ elim (after-cases n j k) [ inl (c, d) ↦ omega arith | inr (c, d) ↦ omega arith ]
  | inr (a, b) ↦ elim (after-cases n j k) [ inl (c, d) ↦ omega arith | inr (c, d) ↦ omega arith ]
]

pub after_ne : (n i : ℕ) → 1 < n → i < n → (i + 1) % n ≢ i
after_ne n i h k e = elim (after-cases n i k) [
  | inl (a, b) ↦ omega arith
  | inr (a, b) ↦ omega arith
]

-- The table is arranged but for the slot `hole`, whose entry is a copy that is to be overwritten.
pub record Holed {ℓ} {K V : Type ℓ} (home : K → ℕ) (slots : List (Slot K V)) (hole : ℕ)
    : Type ℓ where
  pub several : 1 < length slots
  pub inside : hole < length slots
  pub copy : (k : K) × (v : V) × (d : ℕ) × (slot_at slots hole ≡ entry k v d)
  pub stands :
      (i : ℕ) (k : K) (v : V) (d : ℕ)
      → hole ≢ i
      → slot_at slots i ≡ entry k v d
      → (i ≡ along (length slots) (home k) d) × (d < length slots)
  pub passed :
      (i : ℕ) (k : K) (v : V) (d : ℕ)
      → hole ≢ i
      → slot_at slots i ≡ entry k v d
      → (e : ℕ) → e < d
      → hole ≢ along (length slots) (home k) e
      → AtLeast slots (along (length slots) (home k) e) e
  pub single :
      (i j : ℕ) (k : K) (v w : V) (d e : ℕ)
      → hole ≢ i
      → hole ≢ j
      → slot_at slots i ≡ entry k v d
      → slot_at slots j ≡ entry k w e
      → i ≡ j

-- The entries but for the hole.
abbrev pub Outside {ℓ} : {K V : Type ℓ} → List (Slot K V) → ℕ → K → V → Type ℓ
Outside slots hole k v = (i : ℕ) × (d : ℕ) × (hole ≢ i) × (slot_at slots i ≡ entry k v d)

module _ {ℓ} {K V : Type ℓ} (home : K → ℕ) (slots : List (Slot K V)) where
  pub Arranged-Holed :
      (i : ℕ) (k : K) (v : V) (d : ℕ)
      → 1 < length slots
      → i < length slots
      → slot_at slots i ≡ entry k v d
      → Arranged home slots
      → Holed home slots i
  Arranged-Holed i k v d several inside e a = record {
    several = several;
    inside = inside;
    copy = (k, v, d, e);
    stands = λ j x w f ne c. a.stands j x w f c;
    passed = λ j x w f ne c g lt apart. a.passed j x w f c g lt;
    single = λ j j' x w u f g ne ne' c c'. a.single j j' x w u f g c c';
  }

  module _ (hole : ℕ) (h : Holed home slots hole) where
    pub after_hole : hole ≢ after slots hole
    after_hole e = after_ne (length slots) hole h.several h.inside (sym e)

    -- An entry that passed the hole passed, or is, the next slot.
    pub passed_hole :
        (i : ℕ) (k : K) (v : V) (d e : ℕ)
        → hole ≢ i
        → slot_at slots i ≡ entry k v d
        → e < d
        → hole ≡ along (length slots) (home k) e
        → ((suc e ≡ d) × (i ≡ after slots hole)) ⊎ AtLeast slots (after slots hole) (suc e)
    passed_hole i k v d e ne c lt at = elim (index_cases (suc e) d) [
      | inl last ↦
          inl
            (last, (h.stands i k v d ne c).0 ∙ ap (along (length slots) (home k)) (sym last) ∙ next)
      | inr more ↦ inr (
          subst (λ p. AtLeast slots p (suc e)) next
            (h.passed i k v d ne c (suc e) (omega arith) (λ same. after_hole (same ∙ next))))
    ]
      where
        next : along (length slots) (home k) (suc e) ≡ after slots hole
        next =
            ap (along (length slots) (home k)) (omega arith)
            ∙ sym (along-suc (length slots) (omega (arith, h.inside)) (home k) e)
            ∙ ap (λ p. (p + 1) % length slots) (sym at)
