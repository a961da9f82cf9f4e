-- ===== src/Unicode/Bytes.antt =====
-- The masks and shifts of src/unicode.c as comparisons and sums.
use Prim.Native.Nat.{bit_and}
use solidc.Base.{
  ℕ, ◌+◌, ◌*◌, ◌%◌, ◌<◌, ◌≡◌, refl, Bool, true, false, not, ◌&&◌, arith, ltb, leb, ◌==◌, ==→eq,
}
use solidc.Base.Bits.{all_below, all_below_sound, bit_or_shifted, bit_and_63}
use solidc.Unicode.{
  is_ascii, leads_two, leads_three, leads_four, continues, join_two, join_three, join_four,
}

same : Bool → Bool → Bool
same true b = b
same false b = not b

eq_of_same : (a b : Bool) → same a b ≡ true → a ≡ b
unfolding same
eq_of_same a b h = ground arith

module _ (b : ℕ) (byte : b < 256) where
  by_table : (p q : ℕ → Bool) → all_below 256 (λ x. same (p x) (q x)) ≡ true → p b ≡ q b
  by_table p q h = eq_of_same (p b) (q b) (all_below_sound 256 (λ x. same (p x) (q x)) b h byte)

  numbers_by_table : (f g : ℕ → ℕ) → all_below 256 (λ x. f x == g x) ≡ true → f b ≡ g b
  numbers_by_table f g h = ==→eq (f b) (g b) (all_below_sound 256 (λ x. f x == g x) b h byte)

  pub is_ascii_lem : is_ascii b ≡ ltb b 0x80
  unfolding is_ascii same
  is_ascii_lem = by_table is_ascii (λ x. ltb x 0x80) refl

  pub leads_two_lem : leads_two b ≡ (leb 0xC0 b && ltb b 0xE0)
  unfolding leads_two same
  leads_two_lem = by_table leads_two (λ x. leb 0xC0 x && ltb x 0xE0) refl

  pub leads_three_lem : leads_three b ≡ (leb 0xE0 b && ltb b 0xF0)
  unfolding leads_three same
  leads_three_lem = by_table leads_three (λ x. leb 0xE0 x && ltb x 0xF0) refl

  pub leads_four_lem : leads_four b ≡ (leb 0xF0 b && ltb b 0xF8)
  unfolding leads_four same
  leads_four_lem = by_table leads_four (λ x. leb 0xF0 x && ltb x 0xF8) refl

  pub continues_lem : continues b ≡ (leb 0x80 b && ltb b 0xC0)
  unfolding continues same
  continues_lem = by_table continues (λ x. leb 0x80 x && ltb x 0xC0) refl

  low_five : bit_and b 0x1F ≡ b % 32
  low_five = numbers_by_table (λ x. bit_and x 0x1F) (λ x. x % 32) refl

  low_four : bit_and b 0x0F ≡ b % 16
  low_four = numbers_by_table (λ x. bit_and x 0x0F) (λ x. x % 16) refl

  low_three : bit_and b 0x07 ≡ b % 8
  low_three = numbers_by_table (λ x. bit_and x 0x07) (λ x. x % 8) refl

  pub join_two_lem : (c : ℕ) → join_two b c ≡ b % 32 * 64 + c % 64
  unfolding join_two
  join_two_lem c = rw (low_five, bit_and_63 c) (bit_or_shifted 6 (b % 32) (c % 64) (omega arith))

  pub join_three_lem : (c d : ℕ) → join_three b c d ≡ b % 16 * 4096 + c % 64 * 64 + d % 64
  unfolding join_three
  join_three_lem c d =
      rw
        (
          low_four,
          bit_and_63 c,
          bit_and_63 d,
          bit_or_shifted 12 (b % 16) (c % 64 * 64) (omega arith),
          regroup (b % 16) (c % 64),
          bit_or_shifted 6 (b % 16 * 64 + c % 64) (d % 64) (omega arith),
        )
        (omega arith)
    where
      regroup : (x y : ℕ) → x * 4096 + y * 64 ≡ (x * 64 + y) * 64
      regroup x y = omega arith

  pub join_four_lem :
      (c d e : ℕ) → join_four b c d e ≡ b % 8 * 262144 + c % 64 * 4096 + d % 64 * 64 + e % 64
  unfolding join_four
  join_four_lem c d e =
      rw
        (
          low_three,
          bit_and_63 c,
          bit_and_63 d,
          bit_and_63 e,
          bit_or_shifted 18 (b % 8) (c % 64 * 4096) (omega arith),
          regroup_high (b % 8) (c % 64),
          bit_or_shifted 12 (b % 8 * 64 + c % 64) (d % 64 * 64) (omega arith),
          regroup_low (b % 8 * 64 + c % 64) (d % 64),
          bit_or_shifted 6 ((b % 8 * 64 + c % 64) * 64 + d % 64) (e % 64) (omega arith),
        )
        (omega arith)
    where
      regroup_high : (x y : ℕ) → x * 262144 + y * 4096 ≡ (x * 64 + y) * 4096
      regroup_high x y = omega arith

      regroup_low : (x y : ℕ) → x * 4096 + y * 64 ≡ (x * 64 + y) * 64
      regroup_low x y = omega arith
