-- ===== src/Unicode/Encode.antt =====
-- `ucp_to_utf8` of src/unicode.c, and decoding after it.
use Prim.Native.Nat.{bit_and, bit_or}
use solidc.Base.{
  ℕ, ◌+◌, ◌*◌, ◌/◌, ◌%◌, ◌≤◌, ◌<◌, ◌≡◌, ◌∙◌, inl, inr, List, [], ◌∷◌, ◌++◌, some, arith, leb,
  if◌then◌else◌, Bool-cases, tests,
}
use solidc.Base.Bits.{bit_or_shifted, bit_and_63}
use solidc.Unicode.{ucp_to_utf8, utf8_to_codepoint, max_codepoint, IsScalar}
use solidc.Unicode.Bytes.{
  is_ascii_lem, leads_two_lem, leads_three_lem, leads_four_lem, continues_lem, join_two_lem,
  join_three_lem, join_four_lem,
}

-- The bytes as sums.
abbrev pub sums : ℕ → List ℕ
sums cp =
    if leb cp 0x7F
    then cp ∷ []
    else if leb cp 0x7FF
    then (0xC0 + cp / 64) ∷ (0x80 + cp % 64) ∷ []
    else if leb cp 0xFFFF
    then (0xE0 + cp / 4096) ∷ (0x80 + cp / 64 % 64) ∷ (0x80 + cp % 64) ∷ []
    else if leb cp max_codepoint
    then (0xF0 + cp / 262144)
      ∷ (0x80 + cp / 4096 % 64)
      ∷ (0x80 + cp / 64 % 64)
      ∷ (0x80 + cp % 64)
      ∷ []
    else []

continuation : (x : ℕ) → bit_or 0x80 (bit_and x 0x3F) ≡ 0x80 + x % 64
continuation x = rw (bit_and_63 x) (bit_or_shifted 6 2 (x % 64) (omega arith))

pub ucp_to_utf8_lem : (cp : ℕ) → ucp_to_utf8 cp ≡ sums cp
unfolding ucp_to_utf8
ucp_to_utf8_lem cp = ground (
  arith,
  continuation cp,
  continuation (cp / 64),
  continuation (cp / 4096),
  λ (h : cp ≤ 0x7FF). bit_or_shifted 5 6 (cp / 64) (omega arith),
  λ (h : cp ≤ 0xFFFF). bit_or_shifted 4 14 (cp / 4096) (omega arith),
  λ (h : cp ≤ max_codepoint). bit_or_shifted 3 30 (cp / 262144) (omega arith),
)

-- What `utf8_to_codepoint` makes of a sequence of each length.
module _ (rest : List ℕ) where
  decode_one : (b : ℕ) → b < 0x80 → utf8_to_codepoint (some (b ∷ rest)) ≡ b
  unfolding utf8_to_codepoint
  decode_one b h = ground (arith, is_ascii_lem b (omega arith))

  decode_two :
      (x y : ℕ)
      → x < 32
      → y < 64
      → 0x80 ≤ x * 64 + y
      → utf8_to_codepoint (some ((0xC0 + x) ∷ (0x80 + y) ∷ rest)) ≡ x * 64 + y
  unfolding utf8_to_codepoint
  decode_two x y hx hy lo = ground (
    arith,
    is_ascii_lem (0xC0 + x) (omega arith),
    leads_two_lem (0xC0 + x) (omega arith),
    continues_lem (0x80 + y) (omega arith),
    join_two_lem (0xC0 + x) (omega arith) (0x80 + y),
  )

  decode_three :
      (x y z : ℕ)
      → x < 16
      → y < 64
      → z < 64
      → 0x800 ≤ x * 4096 + y * 64 + z
      → IsScalar (x * 4096 + y * 64 + z)
      → utf8_to_codepoint (some ((0xE0 + x) ∷ (0x80 + y) ∷ (0x80 + z) ∷ rest))
        ≡ x * 4096 + y * 64 + z
  unfolding utf8_to_codepoint
  decode_three x y z hx hy hz lo scalar = ground (
    arith,
    is_ascii_lem (0xE0 + x) (omega arith),
    leads_two_lem (0xE0 + x) (omega arith),
    leads_three_lem (0xE0 + x) (omega arith),
    continues_lem (0x80 + y) (omega arith),
    continues_lem (0x80 + z) (omega arith),
    join_three_lem (0xE0 + x) (omega arith) (0x80 + y) (0x80 + z),
  )

  decode_four :
      (x y z w : ℕ)
      → x < 8
      → y < 64
      → z < 64
      → w < 64
      → 0x10000 ≤ x * 262144 + y * 4096 + z * 64 + w
      → x * 262144 + y * 4096 + z * 64 + w ≤ max_codepoint
      → utf8_to_codepoint (some ((0xF0 + x) ∷ (0x80 + y) ∷ (0x80 + z) ∷ (0x80 + w) ∷ rest))
        ≡ x * 262144 + y * 4096 + z * 64 + w
  unfolding utf8_to_codepoint
  decode_four x y z w hx hy hz hw lo hi = ground (
    arith,
    is_ascii_lem (0xF0 + x) (omega arith),
    leads_two_lem (0xF0 + x) (omega arith),
    leads_three_lem (0xF0 + x) (omega arith),
    leads_four_lem (0xF0 + x) (omega arith),
    continues_lem (0x80 + y) (omega arith),
    continues_lem (0x80 + z) (omega arith),
    continues_lem (0x80 + w) (omega arith),
    join_four_lem (0xF0 + x) (omega arith) (0x80 + y) (0x80 + z) (0x80 + w),
  )

-- A code point is in one of the four ranges.
pub data Range (cp : ℕ) : Type 0 where
  one : cp < 0x80 → sums cp ≡ cp ∷ [] → Range cp
  two : 0x80 ≤ cp → cp < 0x800 → sums cp ≡ (0xC0 + cp / 64) ∷ (0x80 + cp % 64) ∷ [] → Range cp
  three :
      0x800 ≤ cp
      → cp < 0x10000
      → sums cp ≡ (0xE0 + cp / 4096) ∷ (0x80 + cp / 64 % 64) ∷ (0x80 + cp % 64) ∷ []
      → Range cp
  four :
      0x10000 ≤ cp
      → cp ≤ max_codepoint
      → sums cp
        ≡ (0xF0 + cp / 262144)
          ∷ (0x80 + cp / 4096 % 64)
          ∷ (0x80 + cp / 64 % 64)
          ∷ (0x80 + cp % 64)
          ∷ []
      → Range cp

pub range : (cp : ℕ) → cp ≤ max_codepoint → Range cp
range cp h = elim (Bool-cases (leb cp 0x7F)) [
  | inl a ↦ one (omega tests) (rw a)
  | inr a ↦ elim (Bool-cases (leb cp 0x7FF)) [
    | inl b ↦ two (omega tests) (omega tests) (rw (a, b))
    | inr b ↦ elim (Bool-cases (leb cp 0xFFFF)) [
      | inl c ↦ three (omega tests) (omega tests) (rw (a, b, c))
      | inr c ↦ four (omega tests) h (ground arith)
    ]
  ]
]

-- Decoding what a scalar value is encoded to gives it back, whatever bytes follow.
pub utf8_to_codepoint-ucp_to_utf8 :
    (cp : ℕ) (rest : List ℕ) → IsScalar cp → utf8_to_codepoint (some (ucp_to_utf8 cp ++ rest)) ≡ cp
utf8_to_codepoint-ucp_to_utf8 cp rest s = by_range (range cp (omega arith))
  where
    by_range : Range cp → utf8_to_codepoint (some (ucp_to_utf8 cp ++ rest)) ≡ cp
    by_range (one h e) = rw (ucp_to_utf8_lem cp, e) (decode_one rest cp h)
    by_range (two lo hi e) =
        rw (ucp_to_utf8_lem cp, e)
          (decode_two rest (cp / 64) (cp % 64) (omega arith) (omega arith) (omega arith)
            ∙ omega arith)
    by_range (three lo hi e) =
        rw (ucp_to_utf8_lem cp, e)
          (decode_three rest (cp / 4096) (cp / 64 % 64) (cp % 64) (omega arith) (omega arith)
              (omega arith) (omega arith) (omega arith)
            ∙ omega arith)
    by_range (four lo hi e) =
        rw (ucp_to_utf8_lem cp, e)
          (decode_four rest (cp / 262144) (cp / 4096 % 64) (cp / 64 % 64) (cp % 64) (omega arith)
              (omega arith) (omega arith) (omega arith) (omega arith) (omega arith)
            ∙ omega arith)
