-- ===== src/Unicode/Rounds.antt =====
-- The rounds of `is_valid_utf8` of src/unicode.c over the encodings of each length.
use solidc.Base.{ℕ, ◌+◌, ◌*◌, ◌≤◌, ◌<◌, ◌≡◌, some, arith}
use solidc.Unicode.{valid_round, max_codepoint, IsScalar}
use solidc.Unicode.Bytes.{
  is_ascii_lem, leads_two_lem, leads_three_lem, leads_four_lem, continues_lem, join_two_lem,
  join_three_lem, join_four_lem,
}

pub round_one : (b c d e : ℕ) → b < 0x80 → valid_round b c d e ≡ some 1
unfolding valid_round
round_one b c d e h = ground (arith, is_ascii_lem b (omega arith))

pub round_two :
    (x y d e : ℕ)
    → x < 32
    → y < 64
    → 0x80 ≤ x * 64 + y
    → valid_round (0xC0 + x) (0x80 + y) d e ≡ some 2
unfolding valid_round
round_two x y d e hx hy lo = ground (
  arith,
  is_ascii_lem (0xC0 + x) (omega arith),
  leads_two_lem (0xC0 + x) (omega arith),
  continues_lem (0x80 + y) (omega arith),
  join_two_lem (0xC0 + x) (omega arith) (0x80 + y),
)

pub round_three :
    (x y z e : ℕ)
    → x < 16
    → y < 64
    → z < 64
    → 0x800 ≤ x * 4096 + y * 64 + z
    → IsScalar (x * 4096 + y * 64 + z)
    → valid_round (0xE0 + x) (0x80 + y) (0x80 + z) e ≡ some 3
unfolding valid_round
round_three x y z e hx hy hz lo sc = ground (
  arith,
  is_ascii_lem (0xE0 + x) (omega arith),
  leads_two_lem (0xE0 + x) (omega arith),
  leads_three_lem (0xE0 + x) (omega arith),
  continues_lem (0x80 + y) (omega arith),
  continues_lem (0x80 + z) (omega arith),
  join_three_lem (0xE0 + x) (omega arith) (0x80 + y) (0x80 + z),
)

pub round_four :
    (x y z w : ℕ)
    → x < 8
    → y < 64
    → z < 64
    → w < 64
    → 0x10000 ≤ x * 262144 + y * 4096 + z * 64 + w
    → x * 262144 + y * 4096 + z * 64 + w ≤ max_codepoint
    → valid_round (0xF0 + x) (0x80 + y) (0x80 + z) (0x80 + w) ≡ some 4
unfolding valid_round
round_four x y z w hx hy hz hw lo hi = ground (
  arith,
  is_ascii_lem (0xF0 + x) (omega arith),
  leads_two_lem (0xF0 + x) (omega arith),
  leads_three_lem (0xF0 + x) (omega arith),
  leads_four_lem (0xF0 + x) (omega arith),
  continues_lem (0x80 + y) (omega arith),
  continues_lem (0x80 + z) (omega arith),
  continues_lem (0x80 + w) (omega arith),
  join_four_lem (0xF0 + x) (omega arith) (0x80 + y) (0x80 + z) (0x80 + w),
)
