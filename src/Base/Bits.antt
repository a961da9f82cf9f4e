-- ===== src/Base/Bits.antt =====
-- `&`, `|` and shifts of C on the native numbers: laws at every width, and tables over a byte.
use native.Mathlib.Nat.{
  pow-suc, one-le-pow, mod-lt, mod-eq_of_lt, mul-add-mod_self_left, div-add-mod, mul_assoc,
}
use Prim.Native.Nat.{digits, bitwise, bit_and, bit_or, bit_and-bitwise, bit_or-bitwise}
use Prim.Native.Nat.{ℕ, zero, suc, ◌+◌, ◌-◌, ◌*◌, ◌/◌, ◌%◌, ◌^◌, ◌≤◌, ◌<◌, min, max}
use mathlib.Core.Path.{◌≡◌, refl, sym, ap, ◌∙◌}
use mathlib.Core.Bool.{Bool, true, ◌&&◌}
use native.Mathlib.Omega.{arith}

-- Every value below a bound, by evaluation.
abbrev pub all_below : ℕ → (ℕ → Bool) → Bool
all_below zero p = true
all_below (suc n) p = p n && all_below n p

pub all_below_sound : (n : ℕ) (p : ℕ → Bool) (x : ℕ) → all_below n p ≡ true → x < n → p x ≡ true
all_below_sound zero p x h lt = absurd (omega arith)
all_below_sound (suc n) p x h lt = ground (arith, all_below_sound n p x)

-- The recursion on binary digits does not depend on how many digits it may read, if they suffice.
digits_enough :
    (lead : ℕ → ℕ) (op : ℕ → ℕ → ℕ) (n m a b : ℕ)
    → a ≤ n
    → a ≤ m
    → digits lead op n a b ≡ digits lead op m a b
digits_enough lead op zero zero a b p q = refl
digits_enough lead op zero (suc m) zero b p q = refl
digits_enough lead op zero (suc m) (suc a) b p q = elim p [ ]
digits_enough lead op (suc n) zero zero b p q = refl
digits_enough lead op (suc n) zero (suc a) b p q = elim q [ ]
digits_enough lead op (suc n) (suc m) zero b p q = refl
digits_enough lead op (suc n) (suc m) (suc a) b p q =
    ap (λ t. t * 2 + op (suc a % 2) (b % 2))
      (digits_enough lead op n m (suc a / 2) (b / 2) (omega arith) (omega arith))

-- One binary digit of a bitwise operation.
bitwise_step :
    (lead : ℕ → ℕ) (op : ℕ → ℕ → ℕ) (a b : ℕ)
    → bitwise lead op (suc a) b ≡ bitwise lead op (suc a / 2) (b / 2) * 2 + op (suc a % 2) (b % 2)
bitwise_step lead op a b =
    ap (λ t. t * 2 + op (suc a % 2) (b % 2))
      (digits_enough lead op a (suc a / 2) (suc a / 2) (b / 2) (omega arith) (omega arith))

zero-bit_or : (b : ℕ) → bit_or 0 b ≡ b
zero-bit_or b = bit_or-bitwise 0 b

zero-bit_and : (b : ℕ) → bit_and 0 b ≡ 0
zero-bit_and b = bit_and-bitwise 0 b

bit_or_digit : (a b : ℕ) → bit_or a b ≡ bit_or (a / 2) (b / 2) * 2 + max (a % 2) (b % 2)
bit_or_digit zero b = omega (arith, zero-bit_or b, zero-bit_or (b / 2))
bit_or_digit (suc a) b = omega (
  arith,
  bit_or-bitwise (suc a) b,
  bit_or-bitwise (suc a / 2) (b / 2),
  bitwise_step (λ b. b) max a b,
)

bit_and_digit : (a b : ℕ) → bit_and a b ≡ bit_and (a / 2) (b / 2) * 2 + min (a % 2) (b % 2)
bit_and_digit zero b = omega (arith, zero-bit_and b, zero-bit_and (b / 2))
bit_and_digit (suc a) b = omega (
  arith,
  bit_and-bitwise (suc a) b,
  bit_and-bitwise (suc a / 2) (b / 2),
  bitwise_step (λ b. zero) min a b,
)

bit_or-zero_below : (n a : ℕ) → a ≤ n → bit_or a 0 ≡ a
bit_or-zero_below n zero h = zero-bit_or 0
bit_or-zero_below zero (suc a) h = elim h [ ]
bit_or-zero_below (suc n) (suc a) h =
    omega (arith, bit_or_digit (suc a) 0, bit_or-zero_below n (suc a / 2) (omega arith))

bit_and-zero_below : (n a : ℕ) → a ≤ n → bit_and a 0 ≡ 0
bit_and-zero_below n zero h = zero-bit_and 0
bit_and-zero_below zero (suc a) h = elim h [ ]
bit_and-zero_below (suc n) (suc a) h =
    omega (arith, bit_and_digit (suc a) 0, bit_and-zero_below n (suc a / 2) (omega arith))

doubled : (x k : ℕ) → x * 2 ^ suc k ≡ 2 * (x * 2 ^ k)
doubled x k = rw (pow-suc 2 k) (omega arith)

-- `(x << k) | y` is a sum where `y` has at most `k` bits.
pub bit_or_shifted : (k x y : ℕ) → y < 2 ^ k → bit_or (x * 2 ^ k) y ≡ x * 2 ^ k + y
bit_or_shifted zero x y h =
    let e : y ≡ 0 = omega arith in
    rw e (omega (arith, bit_or-zero_below (x * 1) (x * 1) (omega arith)))
bit_or_shifted (suc k) x y h = omega (
  arith,
  bit_or_digit (x * 2 ^ suc k) y,
  ap (λ (t : ℕ). bit_or (t / 2) (y / 2)) (doubled x k),
  ap (λ (t : ℕ). bit_or t (y / 2)) (half (x * 2 ^ k)),
  doubled x k,
  pow-suc 2 k,
  bit_or_shifted k x (y / 2) (omega (arith, pow-suc 2 k)),
)
  where
    half : (t : ℕ) → 2 * t / 2 ≡ t
    half t = omega arith

-- `x & 0x3f` is the remainder by 64.
pub bit_and_63 : (x : ℕ) → bit_and x 63 ≡ x % 64
bit_and_63 x = omega (
  arith,
  bit_and_digit x 63,
  bit_and_digit (x / 2) 31,
  bit_and_digit (x / 2 / 2) 15,
  bit_and_digit (x / 2 / 2 / 2) 7,
  bit_and_digit (x / 2 / 2 / 2 / 2) 3,
  bit_and_digit (x / 2 / 2 / 2 / 2 / 2) 1,
  bit_and-zero_below (x / 2 / 2 / 2 / 2 / 2 / 2) (x / 2 / 2 / 2 / 2 / 2 / 2) (omega arith),
)

-- A remainder by twice `m` is made of the last binary digit and a remainder by `m`.
mod-double : (a m : ℕ) → 0 < m → a % (2 * m) ≡ a / 2 % m * 2 + a % 2
mod-double a m pos =
    ap (λ t. t % (2 * m)) split
    ∙ mul-add-mod_self_left (2 * m) (a / 2 / m) rest
    ∙ mod-eq_of_lt (omega (arith, mod-lt (a / 2) pos))
  where
    rest : ℕ
    rest = a / 2 % m * 2 + a % 2

    split : a ≡ 2 * m * (a / 2 / m) + rest
    split = omega (arith, div-add-mod (a / 2) m, mul_assoc 2 m (a / 2 / m))

-- `x & (2 ^ k - 1)` is the remainder by `2 ^ k`.
pub bit_and_mask : (k x : ℕ) → bit_and x (2 ^ k - 1) ≡ x % 2 ^ k
bit_and_mask zero x = bit_and-zero_below x x (omega arith) ∙ omega arith
bit_and_mask (suc k) x =
    bit_and_digit x (2 ^ suc k - 1)
    ∙ ap (λ t. bit_and (x / 2) t * 2 + min (x % 2) ((2 ^ suc k - 1) % 2)) halved
    ∙ ap (λ t. t * 2 + min (x % 2) ((2 ^ suc k - 1) % 2)) (bit_and_mask k (x / 2))
    ∙ ap (λ t. x / 2 % 2 ^ k * 2 + t) last
    ∙ sym (ap (λ t. x % t) twice ∙ mod-double x (2 ^ k) positive)
  where
    positive : 0 < 2 ^ k
    positive = one-le-pow k 2 (omega arith)

    twice : 2 ^ suc k ≡ 2 * 2 ^ k
    twice = omega (arith, pow-suc 2 k)

    halved : (2 ^ suc k - 1) / 2 ≡ 2 ^ k - 1
    halved = omega (arith, twice, positive)

    last : min (x % 2) ((2 ^ suc k - 1) % 2) ≡ x % 2
    last = omega (arith, twice, positive)
