-- ===== src/HashMap/Assign.antt =====
-- map_set of src/map.c, as map_get sees it.
use Prim.Native.Nat.{bit_and}
use solidc.Base.{
  ℕ, ◌+◌, ◌-◌, ◌≡◌, ◌≢◌, refl, sym, ap, ◌∙◌, inl, inr, Bool, true, Option, none, some, List, arith,
  if◌then◌else◌, length, set, length-set, Bool-cases,
}
use solidc.HashMap.{HashMap, Slot, entry, slot_at, Stored, placed, updated, store, map_get, set_in}
use solidc.HashMap.Probe.{along, along-zero, Contains}
use solidc.HashMap.Update.{
  store-stands, revalued-Arranged, revalued-occupied, revalued-adds, revalued-keeps, revalued-only,
}
use solidc.HashMap.Table.{IsValid, Contains-or_Missing, home_lt, map_get-Contains, map_get-Missing}
use solidc.HashMap.Room.{Roomy}

-- how many entries a map gains when a key is set that had this value
abbrev pub gained {ℓ} : {V : Type ℓ} → Option V → ℕ
gained none = 1
gained (some v) = 0

module _ {ℓ} {K V : Type ℓ} (hash : K → ℕ → ℕ) (key_compare : K → K → Bool)
    (sound : (a b : K) → key_compare a b ≡ true → a ≡ b)
    (reflexive : (a : K) → key_compare a a ≡ true) (len : ℕ) where
  -- Maps with the same entries, read through `map_get`.
  pub same_get :
      (m m' : HashMap K V)
      → IsValid hash len m
      → IsValid hash len m'
      → (x : K) → ((w : V) → Contains m.slots x w → Contains m'.slots x w)
      → ((w : V) → Contains m'.slots x w → Contains m.slots x w)
      → map_get hash key_compare (some m') (some x) len
        ≡ map_get hash key_compare (some m) (some x) len
  same_get m m' a b x keeps only =
      elim (Contains-or_Missing key_compare sound reflexive m.slots x) [
        | inl (w, there) ↦
            map_get-Contains hash key_compare sound reflexive len m' b x w (keeps w there)
            ∙ sym (map_get-Contains hash key_compare sound reflexive len m a x w there)
        | inr missing ↦
            map_get-Missing hash key_compare sound reflexive len m' b x
              (λ i w d e. let (j, f, c) = only w (i, d, e) in missing j w f c)
            ∙ sym (map_get-Missing hash key_compare sound reflexive len m a x missing)
      ]

  -- `m'` is well-formed and is `m` with the value of `k` changed to `v`.
  pub record IsAssigned (m : HashMap K V) (k : K) (v : V) (m' : HashMap K V) : Type ℓ where
    pub valid : IsValid hash len m'
    pub size_eq : m'.size ≡ m.size + gained (map_get hash key_compare (some m) (some k) len)
    pub get_eq :
        (x : K)
        → map_get hash key_compare (some m') (some x) len
          ≡ (if key_compare k x then some v else map_get hash key_compare (some m) (some x) len)

  module _ (m : HashMap K V) (k : K) (v : V) (m' : HashMap K V) (before : IsValid hash len m)
      (valid : IsValid hash len m') (adds : Contains m'.slots k v)
      (keeps : (x : K) (w : V) → k ≢ x → Contains m.slots x w → Contains m'.slots x w)
      (only : (x : K) (w : V) → k ≢ x → Contains m'.slots x w → Contains m.slots x w) where
    pub get_after :
        (x : K)
        → map_get hash key_compare (some m') (some x) len
          ≡ (if key_compare k x then some v else map_get hash key_compare (some m) (some x) len)
    get_after x = elim (Bool-cases (key_compare k x)) [
      | inl same ↦ rw same (
          ap (λ y. map_get hash key_compare (some m') (some y) len) (sym (sound k x same))
          ∙ map_get-Contains hash key_compare sound reflexive len m' valid k v adds)
      | inr other ↦
          let apart : k ≢ x = λ e. cc (other, reflexive k, ap (λ y. key_compare k y) e) in
          rw other (same_get m m' before valid x (λ w. keeps x w apart) (λ w. only x w apart))
    ]

  module _ (m' : HashMap K V) (k : K) (v : V) where
    abbrev pub stored : Stored K V
    stored =
        store key_compare m'.capacity m'.slots (m'.capacity - 1)
          (bit_and (hash k len) (m'.capacity - 1)) k v 0

    pub set_in-placed :
        (slots : List (Slot K V))
        → stored ≡ placed slots
        → set_in hash key_compare m' k len v
          ≡ (true, some (record m' { slots = slots; size = m'.size + 1 }), none)
    unfolding set_in
    set_in-placed slots e = rw (set_in, e) refl

    set_in-updated :
        (slots : List (Slot K V)) (old : V)
        → stored ≡ updated slots old
        → set_in hash key_compare m' k len v ≡ (true, some (record m' { slots = slots }), some old)
    unfolding set_in
    set_in-updated slots old e = rw (set_in, e) refl

  module _ (m m' : HashMap K V) (k : K) (v : V) (before : IsValid hash len m)
      (roomy : Roomy hash len m m') where
    abbrev pub home : K → ℕ
    home x = bit_and (hash x len) (m'.capacity - 1)

    pub start : along (length m'.slots) (home k) 0 ≡ home k
    start = along-zero (length m'.slots) (omega (arith, roomy.valid.width, roomy.free)) (home k) (
        omega
          (arith, roomy.valid.width, home_lt hash key_compare sound reflexive len m' roomy.valid k))

    pub old_get :
        map_get hash key_compare (some m') (some k) len
        ≡ map_get hash key_compare (some m) (some k) len
    old_get = same_get m m' before roomy.valid k (roomy.keeps k) (roomy.only k)

    pub set_present :
        (i d : ℕ) (old : V)
        → slot_at m'.slots i ≡ entry k old d
        → (m'' : HashMap K V) × (set_in hash key_compare m' k len v
            ≡ (true, some m'', map_get hash key_compare (some m) (some k) len))
          × IsAssigned m k v m''
    set_present i d old e =
        let got : map_get hash key_compare (some m) (some k) len ≡ some old =
          sym old_get
          ∙ map_get-Contains hash key_compare sound reflexive len m' roomy.valid k old (i, d, e) in
        let valid : IsValid hash len (record m' { slots = set m'.slots i (entry k v d) }) = record {
          arranged = revalued-Arranged home m'.slots k roomy.valid.arranged i old d e v;
          width = length-set m'.slots i (entry k v d) ∙ roomy.valid.width;
          bits = roomy.valid.bits;
          power = roomy.valid.power;
          wide = roomy.valid.wide;
          count =
              roomy.valid.count
              ∙ sym (revalued-occupied home m'.slots k roomy.valid.arranged i old d e v);
        } in
        (
          record m' { slots = set m'.slots i (entry k v d) },
          set_in-updated m' k v (set m'.slots i (entry k v d)) old stored_eq
              ∙ ap (λ o. (true, some (record m' { slots = set m'.slots i (entry k v d) }), o))
                  (sym got),
          record {
            valid = valid;
            size_eq = omega (arith, roomy.size_eq, ap gained got);
            get_eq =
                get_after m k v (record m' { slots = set m'.slots i (entry k v d) }) before valid
                  (revalued-adds home m'.slots k roomy.valid.arranged i old d e v)
                  (λ x w ne c.
                    revalued-keeps home m'.slots k roomy.valid.arranged i old d e v x w ne
                      (roomy.keeps x w c))
                  (λ x w ne c.
                    roomy.only x w
                      (revalued-only home m'.slots k roomy.valid.arranged i old d e v x w ne c));
          },
        )
      where
        stored_eq : stored m' k v ≡ updated (set m'.slots i (entry k v d)) old
        stored_eq =
            ap (λ c. store key_compare m'.capacity m'.slots (c - 1) (home k) k v 0)
              (sym roomy.valid.width)
            ∙ ap (λ j. store key_compare m'.capacity m'.slots (length m'.slots - 1) j k v 0)
                (sym start)
            ∙ store-stands home m'.slots k roomy.valid.arranged i old d e key_compare sound
                (reflexive k) roomy.valid.bits (roomy.valid.width ∙ roomy.valid.power) v m'.capacity
                0 (omega arith)
                (omega (arith, roomy.valid.width, roomy.valid.arranged.stands i k old d e))
