-- ===== src/Unicode/Scan.antt =====
-- One round of the validating loop of src/unicode.c: which sequences it passes over.
use solidc.Base.{ℕ, ◌+◌, ◌*◌, ◌%◌, ◌≤◌, ◌<◌, ◌≡◌, ◌≢◌, refl, [], ◌∷◌, some, arith, dec_lt}
use solidc.Unicode.{ucp_to_utf8, valid_round, max_codepoint, IsScalar}
use solidc.Unicode.Bytes.{
  is_ascii_lem, leads_two_lem, leads_three_lem, leads_four_lem, continues_lem, join_two_lem,
  join_three_lem, join_four_lem,
}
use solidc.Unicode.Encode.{ucp_to_utf8_lem}

-- The bytes begin with the encoding of the scalar value `cp`, which takes `n` bytes.
pub data Sequence (b c d e n cp : ℕ) : Type 0 where
  single : n ≡ 1 → ucp_to_utf8 cp ≡ b ∷ [] → Sequence b c d e n cp
  double : n ≡ 2 → c ≢ 0 → ucp_to_utf8 cp ≡ b ∷ c ∷ [] → Sequence b c d e n cp
  triple : n ≡ 3 → c ≢ 0 → d ≢ 0 → ucp_to_utf8 cp ≡ b ∷ c ∷ d ∷ [] → Sequence b c d e n cp
  quadruple :
      n ≡ 4 → c ≢ 0 → d ≢ 0 → e ≢ 0 → ucp_to_utf8 cp ≡ b ∷ c ∷ d ∷ e ∷ [] → Sequence b c d e n cp

abbrev Accepted : ℕ → ℕ → ℕ → ℕ → ℕ → Type 0
Accepted b c d e n = (cp : ℕ) × IsScalar cp × (0 < cp) × Sequence b c d e n cp

module _ (b c d e : ℕ) (hb : b < 256) (hc : c < 256) (hd : d < 256) (he : e < 256)
    (pos : 0 < b) where
  accept_one : b < 0x80 → Accepted b c d e 1
  accept_one h = (b, omega arith, pos, single refl (rw (ucp_to_utf8_lem b) (ground arith)))

  accept_two :
      0xC0 ≤ b → b < 0xE0 → 0x80 ≤ c → c < 0xC0 → 0x80 ≤ b % 32 * 64 + c % 64 → Accepted b c d e 2
  accept_two p q r s lo = (
    b % 32 * 64 + c % 64,
    omega arith,
    omega arith,
    double refl (omega arith) (rw (ucp_to_utf8_lem (b % 32 * 64 + c % 64)) (ground arith)),
  )

  accept_three :
      0xE0 ≤ b
      → b < 0xF0
      → 0x80 ≤ c
      → c < 0xC0
      → 0x80 ≤ d
      → d < 0xC0
      → 0x800 ≤ b % 16 * 4096 + c % 64 * 64 + d % 64
      → IsScalar (b % 16 * 4096 + c % 64 * 64 + d % 64)
      → Accepted b c d e 3
  accept_three p q r s t u lo sc = (
    b % 16 * 4096 + c % 64 * 64 + d % 64,
    sc,
    omega arith,
    triple refl (omega arith) (omega arith)
        (rw (ucp_to_utf8_lem (b % 16 * 4096 + c % 64 * 64 + d % 64)) (ground arith)),
  )

  accept_four :
      0xF0 ≤ b
      → b < 0xF8
      → 0x80 ≤ c
      → c < 0xC0
      → 0x80 ≤ d
      → d < 0xC0
      → 0x80 ≤ e
      → e < 0xC0
      → 0x10000 ≤ b % 8 * 262144 + c % 64 * 4096 + d % 64 * 64 + e % 64
      → b % 8 * 262144 + c % 64 * 4096 + d % 64 * 64 + e % 64 ≤ max_codepoint
      → Accepted b c d e 4
  accept_four p q r s t u v w lo hi = (
    b % 8 * 262144 + c % 64 * 4096 + d % 64 * 64 + e % 64,
    omega arith,
    omega arith,
    quadruple refl (omega arith) (omega arith) (omega arith) (
        rw (ucp_to_utf8_lem (b % 8 * 262144 + c % 64 * 4096 + d % 64 * 64 + e % 64))
          (ground arith)),
  )

  module _ (n : ℕ) (h : valid_round b c d e ≡ some n) where
    shape_one : b < 0x80 → n ≡ 1
    unfolding valid_round
    shape_one q = ground (arith, is_ascii_lem b hb)

    shape_two :
        0x80 ≤ b
        → b < 0xE0
        → (n ≡ 2) × (0xC0 ≤ b) × (0x80 ≤ c) × (c < 0xC0) × (0x80 ≤ b % 32 * 64 + c % 64)
    unfolding valid_round
    shape_two p q = ground (
      arith,
      is_ascii_lem b hb,
      leads_two_lem b hb,
      leads_three_lem b hb,
      leads_four_lem b hb,
      continues_lem c hc,
      join_two_lem b hb c,
    )

    shape_three :
        0xE0 ≤ b
        → b < 0xF0
        → (n ≡ 3)
          × (0x80 ≤ c)
          × (c < 0xC0)
          × (0x80 ≤ d)
          × (d < 0xC0)
          × (0x800 ≤ b % 16 * 4096 + c % 64 * 64 + d % 64)
          × IsScalar (b % 16 * 4096 + c % 64 * 64 + d % 64)
    unfolding valid_round
    shape_three p q = ground (
      arith,
      is_ascii_lem b hb,
      leads_two_lem b hb,
      leads_three_lem b hb,
      continues_lem c hc,
      continues_lem d hd,
      join_three_lem b hb c d,
    )

    shape_four :
        0xF0 ≤ b
        → (n ≡ 4)
          × (b < 0xF8)
          × (0x80 ≤ c)
          × (c < 0xC0)
          × (0x80 ≤ d)
          × (d < 0xC0)
          × (0x80 ≤ e)
          × (e < 0xC0)
          × (0x10000 ≤ b % 8 * 262144 + c % 64 * 4096 + d % 64 * 64 + e % 64)
          × (b % 8 * 262144 + c % 64 * 4096 + d % 64 * 64 + e % 64 ≤ max_codepoint)
    unfolding valid_round
    shape_four p = ground (
      arith,
      is_ascii_lem b hb,
      leads_two_lem b hb,
      leads_three_lem b hb,
      leads_four_lem b hb,
      continues_lem c hc,
      continues_lem d hd,
      continues_lem e he,
      join_four_lem b hb c d e,
    )

    -- The round moves on only over the encoding of a scalar value.
    pub valid_round_sound : Accepted b c d e n
    valid_round_sound = elim (dec_lt b 0x80) [
      | yes a ↦ rw (shape_one a) (accept_one a)
      | no a ↦ elim (dec_lt b 0xE0) [
        | yes q ↦ let (en, p, r, s, lo) = shape_two (omega arith) q in rw en (accept_two p q r s lo)
        | no q ↦ elim (dec_lt b 0xF0) [
          | yes u ↦
              let (en, p, r, s, t, lo, sc) = shape_three (omega arith) u in
              rw en (accept_three (omega arith) u p r s t lo sc)
          | no u ↦
              let (en, v, p, r, s, t, w, x, lo, hi) = shape_four (omega arith) in
              rw en (accept_four (omega arith) v p r s t w x lo hi)
        ]
      ]
    ]
