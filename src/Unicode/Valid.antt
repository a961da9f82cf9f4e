-- ===== src/Unicode/Valid.antt =====
-- `is_valid_utf8` and the counting functions of src/unicode.c over whole strings.
use solidc.Base.{
  ℕ, zero, suc, ◌+◌, ◌-◌, ◌/◌, ◌%◌, ◌≤◌, ◌<◌, ◌≡◌, ◌≢◌, refl, sym, ap, ◌∙◌, ◌↔◌, inl, inr, true,
  false, List, [], ◌∷◌, ◌++◌, Option, none, some, arith, length, drop, Option-cases, length-drop,
}
use solidc.Unicode.{ucp_to_utf8, valid_round, valid_from, is_valid_utf8, IsScalar, byte_at}
use solidc.Unicode.Encode.{ucp_to_utf8_lem, Range, one, two, three, four, range}
use solidc.Unicode.Rounds.{round_one, round_two, round_three, round_four}
use solidc.Unicode.Scan.{Sequence, single, double, triple, quadruple, valid_round_sound}

-- A C string holds bytes, none of them the terminator.
abbrev pub IsString : List ℕ → Type 0
IsString [] = Unit
IsString (b ∷ s) = (0 < b) × (b < 256) × IsString s

-- Scalar values that a C string can spell.
abbrev pub AreScalars : List ℕ → Type 0
AreScalars [] = Unit
AreScalars (cp ∷ cps) = IsScalar cp × (0 < cp) × AreScalars cps

-- The encodings, one behind the other.
abbrev pub encode_all : List ℕ → List ℕ
encode_all [] = []
encode_all (cp ∷ cps) = ucp_to_utf8 cp ++ encode_all cps

pub byte_at-lt : (s : List ℕ) (i : ℕ) → IsString s → byte_at s i < 256
byte_at-lt [] i h = omega arith
byte_at-lt (b ∷ s) zero h = h.1
byte_at-lt (b ∷ s) (suc i) h = byte_at-lt s i h.2

pub IsString-drop : (k : ℕ) (s : List ℕ) → IsString s → IsString (drop k s)
IsString-drop zero s h = h
IsString-drop (suc k) [] h = h
IsString-drop (suc k) (b ∷ s) h = IsString-drop k s h.2

-- What stands before the terminator.
pub uncons : (s : List ℕ) → byte_at s 0 ≢ 0 → s ≡ byte_at s 0 ∷ drop 1 s
uncons [] h = absurd (h refl)
uncons (b ∷ s) h = refl

uncons_two : (s : List ℕ) → byte_at s 1 ≢ 0 → s ≡ byte_at s 0 ∷ byte_at s 1 ∷ drop 2 s
uncons_two [] h = absurd (h refl)
uncons_two (b ∷ []) h = absurd (h refl)
uncons_two (b ∷ c ∷ s) h = refl

uncons_three :
    (s : List ℕ) → byte_at s 2 ≢ 0 → s ≡ byte_at s 0 ∷ byte_at s 1 ∷ byte_at s 2 ∷ drop 3 s
uncons_three [] h = absurd (h refl)
uncons_three (b ∷ []) h = absurd (h refl)
uncons_three (b ∷ c ∷ []) h = absurd (h refl)
uncons_three (b ∷ c ∷ d ∷ s) h = refl

-- Passing over `k` bytes and going on behind them.
valid_from-drop : (k : ℕ) (s : List ℕ) → valid_from k s ≡ valid_from 0 (drop k s)
unfolding valid_from
valid_from-drop zero [] = refl
valid_from-drop (suc k) [] = refl
valid_from-drop zero (b ∷ s) = refl
valid_from-drop (suc k) (b ∷ s) = valid_from-drop k s

-- A sequence that the round accepts is a prefix of the string.
abbrev Split : ℕ → List ℕ → ℕ → Type 0
Split b s n =
    (cp : ℕ) × IsScalar cp × (0 < cp) × (0 < n) × (b ∷ s ≡ ucp_to_utf8 cp ++ drop (n - 1) s)

split :
    (b : ℕ) (s : List ℕ) (n cp : ℕ)
    → Sequence b (byte_at s 0) (byte_at s 1) (byte_at s 2) n cp
    → (0 < n) × (b ∷ s ≡ ucp_to_utf8 cp ++ drop (n - 1) s)
split b s n cp (single en e) = (omega arith, rw (en, e))
split b s n cp (double en p e) = (omega arith, rw (en, e) (ap (λ t. b ∷ t) (uncons s p)))
split b s n cp (triple en p q e) = (omega arith, rw (en, e) (ap (λ t. b ∷ t) (uncons_two s q)))
split b s n cp (quadruple en p q r e) =
    (omega arith, rw (en, e) (ap (λ t. b ∷ t) (uncons_three s r)))

valid_from-nil : valid_from 0 [] ≡ true
unfolding valid_from
valid_from-nil = refl

pub valid_from-refused :
    (b : ℕ) (s : List ℕ)
    → valid_round b (byte_at s 0) (byte_at s 1) (byte_at s 2) ≡ none
    → valid_from 0 (b ∷ s) ≡ false
unfolding valid_from
valid_from-refused b s e = rw (e, valid_from)

pub valid_from-accepted :
    (b : ℕ) (s : List ℕ) (k : ℕ)
    → valid_round b (byte_at s 0) (byte_at s 1) (byte_at s 2) ≡ some k
    → valid_from 0 (b ∷ s) ≡ valid_from (k - 1) s
unfolding valid_from
valid_from-accepted b s k e = rw (e, valid_from)

pass : (xs rest : List ℕ) → valid_from (length xs) (xs ++ rest) ≡ valid_from 0 rest
unfolding valid_from
pass [] rest = refl
pass (x ∷ xs) rest = pass xs rest

-- Accepting a string reads scalar values off it.
valid_sound :
    (n : ℕ) (s : List ℕ)
    → length s ≤ n
    → IsString s
    → valid_from 0 s ≡ true
    → (cps : List ℕ) × AreScalars cps × (s ≡ encode_all cps)
valid_sound n [] h t v = ([], tt, refl)
valid_sound zero (b ∷ s) h t v = elim h [ ]
valid_sound (suc n) (b ∷ s) h t v = elim (Option-cases round) [
  | inl e ↦ absurd (refused e v)
  | inr (k, e) ↦
      let (cp, sc, pos, q) =
        valid_round_sound b (byte_at s 0) (byte_at s 1) (byte_at s 2) t.1 (byte_at-lt s 0 t.2)
          (byte_at-lt s 1 t.2) (byte_at-lt s 2 t.2) t.0 k e in
      let (kpos, parts) = split b s k cp q in
      let (cps, all, spelled) =
        valid_sound n (drop (k - 1) s) (omega (arith, length-drop {0} (k - 1) s))
          (IsString-drop (k - 1) s t.2) (sym (valid_from-drop (k - 1) s) ∙ accepted k e v) in
      (cp ∷ cps, (sc, pos, all), parts ∙ ap (λ r. ucp_to_utf8 cp ++ r) spelled)
]
  where
    round : Option ℕ
    round = valid_round b (byte_at s 0) (byte_at s 1) (byte_at s 2)

    refused : round ≡ none → valid_from 0 (b ∷ s) ≡ true → ⊥
    refused e v = cc (valid_from-refused b s e)

    accepted : (k : ℕ) → round ≡ some k → valid_from 0 (b ∷ s) ≡ true → valid_from (k - 1) s ≡ true
    accepted k e v = cc (valid_from-accepted b s k e)

-- The encoding of a scalar value is passed over as a whole.
valid_from-encode :
    (cp : ℕ) (rest : List ℕ)
    → IsScalar cp
    → 0 < cp
    → valid_from 0 (ucp_to_utf8 cp ++ rest) ≡ valid_from 0 rest
valid_from-encode cp rest sc pos = by_range (range cp (omega arith))
  where
    by_range : Range cp → valid_from 0 (ucp_to_utf8 cp ++ rest) ≡ valid_from 0 rest
    by_range (one h e) =
        rw (ucp_to_utf8_lem cp, e) (valid_from-accepted cp rest 1 (round_one cp _ _ _ h))
    by_range (two lo hi e) =
        rw (ucp_to_utf8_lem cp, e)
          (valid_from-accepted (0xC0 + cp / 64) _ 2
              (round_two (cp / 64) (cp % 64) _ _ (omega arith) (omega arith) (omega arith))
            ∙ pass ((0x80 + cp % 64) ∷ []) rest)
    by_range (three lo hi e) =
        rw (ucp_to_utf8_lem cp, e)
          (valid_from-accepted (0xE0 + cp / 4096) _ 3 (
              round_three (cp / 4096) (cp / 64 % 64) (cp % 64) _ (omega arith) (omega arith)
                (omega arith) (omega arith) (omega arith))
            ∙ pass ((0x80 + cp / 64 % 64) ∷ (0x80 + cp % 64) ∷ []) rest)
    by_range (four lo hi e) =
        rw (ucp_to_utf8_lem cp, e)
          (valid_from-accepted (0xF0 + cp / 262144) _ 4 (
              round_four (cp / 262144) (cp / 4096 % 64) (cp / 64 % 64) (cp % 64) (omega arith)
                (omega arith) (omega arith) (omega arith) (omega arith) (omega arith))
            ∙ pass ((0x80 + cp / 4096 % 64) ∷ (0x80 + cp / 64 % 64) ∷ (0x80 + cp % 64) ∷ []) rest)

valid_complete : (cps : List ℕ) → AreScalars cps → valid_from 0 (encode_all cps) ≡ true
valid_complete [] h = valid_from-nil
valid_complete (cp ∷ cps) h = valid_from-encode cp (encode_all cps) h.0 h.1 ∙ valid_complete cps h.2

-- `is_valid_utf8` decides well-formedness: it accepts a string exactly when the bytes are the
-- encodings of scalar values, one behind the other.
pub is_valid_utf8_iff :
    (s : List ℕ)
    → IsString s
    → (is_valid_utf8 (some s) ≡ true) ↔ ((cps : List ℕ) × AreScalars cps × (s ≡ encode_all cps))
unfolding is_valid_utf8
is_valid_utf8_iff s t = (
  λ v. valid_sound (length s) s (omega arith) t v,
  λ (cps, all, e). rw e (valid_complete cps all),
)

pub encode_all-is_valid_utf8 :
    (cps : List ℕ) → AreScalars cps → is_valid_utf8 (some (encode_all cps)) ≡ true
unfolding is_valid_utf8
encode_all-is_valid_utf8 cps h = valid_complete cps h
