-- ===== src/Unicode/Count.antt =====
-- `utf8_count_codepoints`, `utf8_valid_byte_count` and `utf8_char_length` of src/unicode.c.
use solidc.Base.{
  ℕ, zero, suc, ◌+◌, ◌-◌, ◌/◌, ◌%◌, ◌≤◌, ◌<◌, ◌≡◌, refl, sym, ◌∙◌, ◌⊎◌, inl, inr, true, false, List,
  [], ◌∷◌, ◌++◌, some, arith, length, Option-cases,
}
use solidc.Unicode.{
  ucp_to_utf8, valid_round, valid_from, is_valid_utf8, count_from, utf8_count_codepoints,
  count_round, count_valid, utf8_valid_byte_count, utf8_char_length, continues, IsScalar,
  max_codepoint, byte_at,
}
use solidc.Unicode.Bytes.{continues_lem}
use solidc.Unicode.Encode.{ucp_to_utf8_lem, Range, one, two, three, four, range}
use solidc.Unicode.Valid.{AreScalars, encode_all, valid_from-refused, valid_from-accepted}

count_from-leading :
    (b : ℕ) (s : List ℕ) (n : ℕ) → continues b ≡ false → count_from (b ∷ s) n ≡ count_from s (n + 1)
unfolding count_from
count_from-leading b s n e = rw e

count_from-continuing :
    (b : ℕ) (s : List ℕ) (n : ℕ) → continues b ≡ true → count_from (b ∷ s) n ≡ count_from s n
unfolding count_from
count_from-continuing b s n e = rw e

pub leading : (b : ℕ) → b < 256 → (b < 0x80) ⊎ (0xC0 ≤ b) → continues b ≡ false
leading b h k = ground (arith, continues_lem b h)

pub continuing : (y : ℕ) → y < 64 → continues (0x80 + y) ≡ true
continuing y h = ground (arith, continues_lem (0x80 + y) (omega arith))

count_from-encode :
    (cp : ℕ) (rest : List ℕ) (n : ℕ)
    → IsScalar cp
    → count_from (ucp_to_utf8 cp ++ rest) n ≡ count_from rest (n + 1)
count_from-encode cp rest n sc = by_range (range cp (omega arith))
  where
    by_range : Range cp → count_from (ucp_to_utf8 cp ++ rest) n ≡ count_from rest (n + 1)
    by_range (one h e) =
        rw (ucp_to_utf8_lem cp, e) (count_from-leading cp rest n (leading cp (omega arith) (inl h)))
    by_range (two lo hi e) =
        rw (ucp_to_utf8_lem cp, e)
          (count_from-leading (0xC0 + cp / 64) _ n
              (leading (0xC0 + cp / 64) (omega arith) (inr (omega arith)))
            ∙ count_from-continuing _ rest (n + 1) (continuing (cp % 64) (omega arith)))
    by_range (three lo hi e) =
        rw (ucp_to_utf8_lem cp, e)
          (count_from-leading (0xE0 + cp / 4096) _ n
              (leading (0xE0 + cp / 4096) (omega arith) (inr (omega arith)))
            ∙ count_from-continuing _ _ (n + 1) (continuing (cp / 64 % 64) (omega arith))
            ∙ count_from-continuing _ rest (n + 1) (continuing (cp % 64) (omega arith)))
    by_range (four lo hi e) =
        rw (ucp_to_utf8_lem cp, e)
          (count_from-leading (0xF0 + cp / 262144) _ n
              (leading (0xF0 + cp / 262144) (omega arith) (inr (omega arith)))
            ∙ count_from-continuing _ _ (n + 1) (continuing (cp / 4096 % 64) (omega arith))
            ∙ count_from-continuing _ _ (n + 1) (continuing (cp / 64 % 64) (omega arith))
            ∙ count_from-continuing _ rest (n + 1) (continuing (cp % 64) (omega arith)))

count_from-nil : (n : ℕ) → count_from [] n ≡ n
unfolding count_from
count_from-nil n = refl

count_from-encode_all :
    (cps : List ℕ) (n : ℕ) → AreScalars cps → count_from (encode_all cps) n ≡ n + length cps
count_from-encode_all [] n h = count_from-nil n ∙ omega arith
count_from-encode_all (cp ∷ cps) n h =
    count_from-encode cp (encode_all cps) n h.0
    ∙ count_from-encode_all cps (n + 1) h.2
    ∙ omega arith

-- `utf8_count_codepoints` of the encodings of scalar values is their number.
pub utf8_count_codepoints-encode_all :
    (cps : List ℕ) → AreScalars cps → utf8_count_codepoints (some (encode_all cps)) ≡ length cps
unfolding utf8_count_codepoints
utf8_count_codepoints-encode_all cps h = count_from-encode_all cps 0 h ∙ omega arith

-- `utf8_char_length` reads the length of an encoding off its first byte.
pub utf8_char_length-ucp_to_utf8 :
    (cp : ℕ) (rest : List ℕ)
    → cp ≤ max_codepoint
    → utf8_char_length (some (ucp_to_utf8 cp ++ rest)) ≡ length (ucp_to_utf8 cp)
unfolding utf8_char_length
utf8_char_length-ucp_to_utf8 cp rest h = by_range (range cp h)
  where
    by_range : Range cp → utf8_char_length (some (ucp_to_utf8 cp ++ rest)) ≡ length (ucp_to_utf8 cp)
    by_range (one q e) = rw (ucp_to_utf8_lem cp, e) (ground arith)
    by_range (two lo hi e) = rw (ucp_to_utf8_lem cp, e) (ground arith)
    by_range (three lo hi e) = rw (ucp_to_utf8_lem cp, e) (ground arith)
    by_range (four lo hi e) = rw (ucp_to_utf8_lem cp, e) (ground arith)

-- A round that the validation accepts counts the bytes that it passes over.
count_round-valid_round :
    (b c d e n : ℕ) → valid_round b c d e ≡ some n → count_round b c d e ≡ (n, n)
unfolding valid_round count_round
count_round-valid_round b c d e n h = ground arith

byte_at_past : (s : List ℕ) (i : ℕ) → length s ≤ i → byte_at s i ≡ 0
byte_at_past [] i h = refl
byte_at_past (b ∷ s) zero h = elim h [ ]
byte_at_past (b ∷ s) (suc i) h = byte_at_past s i (omega arith)

-- It ends before the terminator.
valid_round_within :
    (b : ℕ) (s : List ℕ) (n : ℕ)
    → valid_round b (byte_at s 0) (byte_at s 1) (byte_at s 2) ≡ some n
    → (0 < n) × (n ≤ suc (length s))
unfolding valid_round
valid_round_within b s n h = ground (arith, byte_at_past s 0, byte_at_past s 1, byte_at_past s 2)

count_valid-step :
    (b : ℕ) (s : List ℕ) (n : ℕ)
    → count_round b (byte_at s 0) (byte_at s 1) (byte_at s 2) ≡ (n, n)
    → count_valid 0 (b ∷ s) ≡ n + count_valid (n - 1) s
unfolding count_valid
count_valid-step b s n e = rw (e, count_valid)

count_valid-skip : (k b : ℕ) (s : List ℕ) → count_valid (suc k) (b ∷ s) ≡ count_valid k s
unfolding count_valid
count_valid-skip k b s = refl

valid_from-skip : (k b : ℕ) (s : List ℕ) → valid_from (suc k) (b ∷ s) ≡ valid_from k s
unfolding valid_from
valid_from-skip k b s = refl

count_valid-nil : (k : ℕ) → count_valid k [] ≡ 0
unfolding count_valid
count_valid-nil zero = refl
count_valid-nil (suc k) = refl

count_valid-length :
    (k : ℕ) (s : List ℕ) → k ≤ length s → valid_from k s ≡ true → count_valid k s + k ≡ length s
count_valid-length k [] h v = omega (arith, count_valid-nil k)
count_valid-length (suc k) (b ∷ s) h v =
    omega (
      arith,
      count_valid-skip k b s,
      count_valid-length k s (omega arith) (rw valid_from-skip at v),
    )
count_valid-length zero (b ∷ s) h v =
    elim (Option-cases (valid_round b (byte_at s 0) (byte_at s 1) (byte_at s 2))) [
      | inl e ↦ cc (valid_from-refused b s e)
      | inr (n, e) ↦ omega (
        arith,
        count_valid-step b s n (count_round-valid_round b _ _ _ n e),
        valid_round_within b s n e,
        count_valid-length (n - 1) s (omega (arith, valid_round_within b s n e))
            (sym (valid_from-accepted b s n e) ∙ v),
      )
    ]

-- Of a string that `is_valid_utf8` accepts, `utf8_valid_byte_count` counts every byte.
pub utf8_valid_byte_count-length :
    (s : List ℕ) → is_valid_utf8 (some s) ≡ true → utf8_valid_byte_count (some s) ≡ length s
unfolding is_valid_utf8 utf8_valid_byte_count
utf8_valid_byte_count-length s v = omega (arith, count_valid-length 0 s (omega arith) v)
