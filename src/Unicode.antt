-- ===== src/Unicode.antt =====
-- src/unicode.c: encoding, decoding and validation of UTF-8. A C string is the list of its bytes up
-- to the terminator, NULL is `none`, and `byte_at` reads the terminator behind the last byte.
pub mod Bytes
pub mod Encode
pub mod Scan
pub mod Rounds
pub mod Valid
pub mod Count
mod Tests
use Prim.Native.Nat.{bit_and, bit_or}
use solidc.Base.{
  ℕ, zero, suc, ◌+◌, ◌-◌, ◌*◌, ◌/◌, ◌^◌, ◌≤◌, ◌<◌, ◌⊎◌, Bool, true, false, not, ◌&&◌, ◌||◌, Option,
  none, some, List, [], ◌∷◌, ◌++◌, ltb, leb, ◌==◌, if◌then◌else◌, get_or,
}

abbrev pub max_codepoint : ℕ
max_codepoint = 0x10FFFF

abbrev pub replacement : ℕ
replacement = 0xFFFD

abbrev pub byte_at : List ℕ → ℕ → ℕ
byte_at s i = get_or s i 0

infixl 60 ◌>>>◌ ◌<<<◌
abbrev pub ◌>>>◌ : ℕ → ℕ → ℕ
x >>> k = x / 2 ^ k

abbrev pub ◌<<<◌ : ℕ → ℕ → ℕ
x <<< k = x * 2 ^ k

-- `ucp_to_utf8`: the bytes put before the terminator of the buffer
unfoldable pub ucp_to_utf8 : ℕ → List ℕ
ucp_to_utf8 codepoint =
    if leb codepoint 0x7F
    then codepoint ∷ []
    else if leb codepoint 0x7FF
    then bit_or 0xC0 (codepoint >>> 6) ∷ bit_or 0x80 (bit_and codepoint 0x3F) ∷ []
    else if leb codepoint 0xFFFF
    then bit_or 0xE0 (codepoint >>> 12)
      ∷ bit_or 0x80 (bit_and (codepoint >>> 6) 0x3F)
      ∷ bit_or 0x80 (bit_and codepoint 0x3F)
      ∷ []
    else if leb codepoint max_codepoint
    then bit_or 0xF0 (codepoint >>> 18)
      ∷ bit_or 0x80 (bit_and (codepoint >>> 12) 0x3F)
      ∷ bit_or 0x80 (bit_and (codepoint >>> 6) 0x3F)
      ∷ bit_or 0x80 (bit_and codepoint 0x3F)
      ∷ []
    else []

-- The tests on a byte that the functions below share.
unfoldable pub is_ascii : ℕ → Bool
is_ascii b = bit_and b 0x80 == 0

unfoldable pub leads_two : ℕ → Bool
leads_two b = bit_and b 0xE0 == 0xC0

unfoldable pub leads_three : ℕ → Bool
leads_three b = bit_and b 0xF0 == 0xE0

unfoldable pub leads_four : ℕ → Bool
leads_four b = bit_and b 0xF8 == 0xF0

unfoldable pub continues : ℕ → Bool
continues b = bit_and b 0xC0 == 0x80

-- The code point that the bits of a sequence spell.
unfoldable pub join_two : ℕ → ℕ → ℕ
join_two b c = bit_or (bit_and b 0x1F <<< 6) (bit_and c 0x3F)

unfoldable pub join_three : ℕ → ℕ → ℕ → ℕ
join_three b c d = bit_or (bit_or (bit_and b 0x0F <<< 12) (bit_and c 0x3F <<< 6)) (bit_and d 0x3F)

unfoldable pub join_four : ℕ → ℕ → ℕ → ℕ → ℕ
join_four b c d e =
    bit_or (bit_or (bit_or (bit_and b 0x07 <<< 18) (bit_and c 0x3F <<< 12)) (bit_and d 0x3F <<< 6))
      (bit_and e 0x3F)

-- `utf8_to_codepoint`
unfoldable pub utf8_to_codepoint : Option (List ℕ) → ℕ
utf8_to_codepoint none = replacement
utf8_to_codepoint (some u) =
    let u0 = byte_at u 0 in
    let u1 = byte_at u 1 in
    let u2 = byte_at u 2 in
    let u3 = byte_at u 3 in
    if is_ascii u0
    then u0
    else if leads_two u0
    then (if continues u1
        then (let codepoint = join_two u0 u1 in
            if ltb codepoint 0x80 then replacement else codepoint)
        else replacement)
    else if leads_three u0
    then (if continues u1 && continues u2
        then (let codepoint = join_three u0 u1 u2 in
            if ltb codepoint 0x800
            then replacement
            else if leb 0xD800 codepoint && leb codepoint 0xDFFF
            then replacement
            else codepoint)
        else replacement)
    else if leads_four u0
    then (if continues u1 && continues u2 && continues u3
        then (let codepoint = join_four u0 u1 u2 u3 in
            if ltb codepoint 0x10000
            then replacement
            else if ltb max_codepoint codepoint
            then replacement
            else codepoint)
        else replacement)
    else replacement

-- `utf8_count_codepoints`
unfoldable pub count_from : List ℕ → ℕ → ℕ
count_from [] count = count
count_from (b ∷ s) count = count_from s (if not (continues b) then count + 1 else count)

unfoldable pub utf8_count_codepoints : Option (List ℕ) → ℕ
utf8_count_codepoints none = 0
utf8_count_codepoints (some s) = count_from s 0

-- One round of the loop of `utf8_valid_byte_count`: how far `i` moves, and by how much `count` grows.
unfoldable pub count_round : ℕ → ℕ → ℕ → ℕ → ℕ × ℕ
count_round b c d e =
    if is_ascii b
    then (1, 1)
    else if leads_two b && not (c == 0)
    then (if continues c then (2, 2) else (1, 0))
    else if leads_three b && not (c == 0) && not (d == 0)
    then (if continues c && continues d then (3, 3) else (1, 0))
    else if leads_four b && not (c == 0) && not (d == 0) && not (e == 0)
    then (if continues c && continues d && continues e then (4, 4) else (1, 0))
    else (1, 0)

-- The loop. `skip` bytes are still to be passed over: `i += n` is `n` steps, the first at once.
unfoldable pub count_valid : ℕ → List ℕ → ℕ
count_valid skip [] = 0
count_valid (suc skip) (b ∷ s) = count_valid skip s
count_valid zero (b ∷ s) =
    let (step, counted) = count_round b (byte_at s 0) (byte_at s 1) (byte_at s 2) in
    counted + count_valid (step - 1) s

unfoldable pub utf8_valid_byte_count : Option (List ℕ) → ℕ
utf8_valid_byte_count none = 0
utf8_valid_byte_count (some s) = count_valid 0 s

-- `utf8_char_length`
unfoldable pub utf8_char_length : Option (List ℕ) → ℕ
utf8_char_length none = 0
utf8_char_length (some str) =
    let byte = byte_at str 0 in
    if leb byte 0x7F
    then 1
    else if leb byte 0xDF
    then 2
    else if leb byte 0xEF
    then 3
    else if leb byte 0xF7
    then 4
    else 0

-- `is_valid_codepoint`
pub is_valid_codepoint : ℕ → Bool
is_valid_codepoint codepoint = leb codepoint max_codepoint

-- One round of the loop of `is_valid_utf8`: how far `i` moves, or `none` for `return false`.
pub valid_round : ℕ → ℕ → ℕ → ℕ → Option ℕ
valid_round b c d e =
    if is_ascii b
    then some 1
    else if leads_two b
    then (if c == 0 || not (continues c)
        then none
        else if ltb (join_two b c) 0x80
        then none
        else some 2)
    else if leads_three b
    then (if c == 0 || d == 0 || not (continues c) || not (continues d)
        then none
        else let codepoint = join_three b c d in
          if ltb codepoint 0x800 || (leb 0xD800 codepoint && leb codepoint 0xDFFF)
          then none
          else some 3)
    else if leads_four b
    then (if c == 0
          || d == 0
          || e == 0
          || not (continues c)
          || not (continues d)
          || not (continues e)
        then none
        else let codepoint = join_four b c d e in
          if ltb codepoint 0x10000 || ltb max_codepoint codepoint then none else some 4)
    else none

-- The loop, with `skip` as above.
pub valid_from : ℕ → List ℕ → Bool
valid_from skip [] = true
valid_from (suc skip) (b ∷ s) = valid_from skip s
valid_from zero (b ∷ s) = elim (valid_round b (byte_at s 0) (byte_at s 1) (byte_at s 2)) [
  | none ↦ false
  | some step ↦ valid_from (step - 1) s
]

pub is_valid_utf8 : Option (List ℕ) → Bool
is_valid_utf8 none = false
is_valid_utf8 (some utf8) = valid_from 0 utf8

-- What the standard calls a scalar value: a code point that is no surrogate.
abbrev pub IsScalar : ℕ → Type 0
IsScalar cp = (cp < 0xD800) ⊎ ((0xDFFF < cp) × (cp ≤ max_codepoint))
