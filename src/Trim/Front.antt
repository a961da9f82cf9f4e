-- ===== src/Trim/Front.antt =====
-- utf8_ltrim of src/unicode.c on well-formed text.
use solidc.Base.{
  ℕ, ◌-◌, ◌≡◌, refl, sym, ap, ◌∙◌, Bool, false, some, List, [], ◌∷◌, ◌++◌, arith, ◌==◌,
  if◌then◌else◌, length, ne→==, Bool-cases, inl, inr,
}
use solidc.Unicode.{ucp_to_utf8, utf8_char_length, IsScalar}
use solidc.Unicode.Encode.{utf8_to_codepoint-ucp_to_utf8}
use solidc.Unicode.Count.{utf8_char_length-ucp_to_utf8}
use solidc.Unicode.Valid.{AreScalars, encode_all}
use solidc.Utf8String.Holds.{length-ucp_to_utf8_pos}
use solidc.Trim.{is_codepoint, is_utf8, ltrim_from, utf8_ltrim}

pub starts : (cp : ℕ) → IsScalar cp → (b : ℕ) × (t : List ℕ) × (ucp_to_utf8 cp ≡ b ∷ t)
starts cp sc = by_bytes (ucp_to_utf8 cp) refl
  where
    by_bytes :
        (bytes : List ℕ)
        → ucp_to_utf8 cp ≡ bytes
        → (b : ℕ) × (t : List ℕ) × (ucp_to_utf8 cp ≡ b ∷ t)
    by_bytes [] e = absurd (omega (arith, length-ucp_to_utf8_pos cp sc, ap length e))
    by_bytes (b ∷ t) e = (b, t, e)

module _ (is : ℕ → Bool) where
  -- what is left when the first characters of the class are gone
  abbrev pub drop_while : List ℕ → List ℕ
  drop_while [] = []
  drop_while (cp ∷ cps) = if is cp then drop_while cps else cp ∷ cps

  pub is_utf8-encoding :
      (cp : ℕ) (s : List ℕ) → IsScalar cp → is_utf8 is (some (ucp_to_utf8 cp ++ s)) ≡ is cp
  unfolding is_utf8 is_codepoint
  is_utf8-encoding cp s sc = ap is (utf8_to_codepoint-ucp_to_utf8 cp s sc)

  skip_over : (t s : List ℕ) → ltrim_from is (length t) (t ++ s) ≡ ltrim_from is 0 s
  unfolding ltrim_from
  skip_over [] s = refl
  skip_over (b ∷ t) s = skip_over t s

  round :
      (cp b : ℕ) (t s : List ℕ)
      → ucp_to_utf8 cp ≡ b ∷ t
      → IsScalar cp
      → ltrim_from is 0 (b ∷ t ++ s) ≡ (if is cp then ltrim_from is 0 s else some (b ∷ t ++ s))
  unfolding ltrim_from
  round cp b t s e sc =
      rw (accepts, len, ap (λ k. ltrim_from is k (t ++ s)) less, skip_over t s, nonzero) refl
    where
      accepts : is_utf8 is (some (b ∷ t ++ s)) ≡ is cp
      accepts = sym (ap (λ u. is_utf8 is (some (u ++ s))) e) ∙ is_utf8-encoding cp s sc

      len : utf8_char_length (some (b ∷ t ++ s)) ≡ length (b ∷ t)
      len =
          sym (ap (λ u. utf8_char_length (some (u ++ s))) e)
          ∙ utf8_char_length-ucp_to_utf8 cp s (omega arith)
          ∙ ap length e

      less : length (b ∷ t) - 1 ≡ length t
      less = omega arith

      nonzero : (length (b ∷ t) == 0) ≡ false
      nonzero = ne→== (length (b ∷ t)) 0 (omega arith)

  ltrim_from_lem :
      (cps : List ℕ)
      → AreScalars cps
      → ltrim_from is 0 (encode_all cps) ≡ some (encode_all (drop_while cps))
  unfolding ltrim_from
  ltrim_from_lem [] h = refl
  ltrim_from_lem (cp ∷ cps) h =
      let (b, t, e) = starts cp h.0 in
      let step =
        ap (λ u. ltrim_from is 0 (u ++ encode_all cps)) e ∙ round cp b t (encode_all cps) e h.0 in
      elim (Bool-cases (is cp)) [
        | inl gone ↦ step ∙ rw gone (ltrim_from_lem cps h.2)
        | inr kept ↦ step ∙ rw (kept, e) refl
      ]

  -- `utf8_ltrim` of the encodings of non-zero scalar values leaves the encodings of those from the
  -- first on that is not white space.
  pub utf8_ltrim_lem :
      (cps : List ℕ)
      → AreScalars cps
      → utf8_ltrim is (some (encode_all cps)) ≡ some (some (encode_all (drop_while cps)))
  unfolding utf8_ltrim
  utf8_ltrim_lem cps h = rw (utf8_ltrim, ltrim_from_lem cps h) refl
