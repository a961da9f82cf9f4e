-- ===== src/CaseMap.antt =====
-- utf8_tolower and utf8_toupper of src/unicode.c, which change a C string in place. The tests and
-- maps of <wctype.h> are parameters: `changes` is iswupper or iswlower, `to` is towlower or towupper.
pub mod Ascii
pub mod Loop
mod Tests
use solidc.Base.{
  ℕ, zero, suc, ◌+◌, ◌-◌, ◌*◌, ◌%◌, ◌^◌, Bool, Option, none, some, List, [], ◌∷◌, ◌++◌, ltb, leb,
  ◌==◌, if◌then◌else◌, take, length, ◌||◌,
}
use Prim.Native.Nat.{bit_or, bit_and}
use solidc.Unicode.{ucp_to_utf8, utf8_to_codepoint, utf8_char_length, utf8_valid_byte_count}

-- `byte - 'A' + 1u <= 26u` and `byte - 'a' + 1u <= 26u`, in 32 bits
pub is_upper : ℕ → ℕ
is_upper byte = if leb ((byte + (2 ^ 32 - 65) + 1) % 2 ^ 32) 26 then 1 else 0

pub is_lower : ℕ → ℕ
is_lower byte = if leb ((byte + (2 ^ 32 - 97) + 1) % 2 ^ 32) 26 then 1 else 0

pub ascii_lower : ℕ → ℕ
ascii_lower byte = bit_or byte (is_upper byte * 32)

pub ascii_upper : ℕ → ℕ
ascii_upper byte = bit_and byte (255 - is_lower byte * 32)

pub prepend : List ℕ → Option (List ℕ) → Option (List ℕ)
prepend bytes none = none
prepend bytes (some rest) = some (bytes ++ rest)

-- Whether the move of the `remaining` bytes and the terminator behind the new encoding stays in the
-- `room` that the buffer has from here on; an encoding of the same length moves nothing.
pub stays_inside : ℕ → ℕ → ℕ → ℕ → Bool
stays_inside new_len old_len remaining room =
    new_len == old_len || leb (new_len + remaining + 1) room

-- The buffer of zeros behind `ucp_to_utf8(codepoint, utf8)`, as a C string.
pub encoded : ℕ → List ℕ
encoded codepoint = if codepoint == 0 then [] else ucp_to_utf8 codepoint

-- The loop, over the bytes from `i` on, of which `skip` are still to be passed over, where the buffer
-- has `room` bytes from `i` on; the result is what stands there in the end, `none` if the loop runs
-- past the terminator or writes past the buffer.
module _ (ascii : ℕ → ℕ) (changes : ℕ → Bool) (to : ℕ → ℕ) where
  pub map_case : ℕ → ℕ → List ℕ → Option (List ℕ)
  map_case zero room [] = some []
  map_case (suc skip) room [] = none
  map_case (suc skip) room (byte ∷ s) = map_case skip room s
  map_case zero room (byte ∷ s) =
      let codepoint = utf8_to_codepoint (some (byte ∷ s)) in
      let old_len = utf8_char_length (some (byte ∷ s)) in
      let utf8 = encoded (to codepoint) in
      let new_len = utf8_valid_byte_count (some utf8) in
      let next = map_case zero (room - 1) s in
      let changed_rest = map_case (old_len - 1) (room - new_len) s in
      let rest = map_case (old_len - 1) (room - old_len) s in
      if ltb byte 0x80
      then prepend (ascii byte ∷ []) next
      else if old_len == 0
      then some (byte ∷ s)
      else if changes codepoint
      then (if stays_inside new_len old_len (length (byte ∷ s) - old_len) room
          then prepend (take new_len utf8) changed_rest
          else none)
      else prepend (take old_len (byte ∷ s)) rest

-- `size` is that of the buffer that the string stands in. A null pointer is let be: `some none`.
pub utf8_tolower : (ℕ → Bool) → (ℕ → ℕ) → ℕ → Option (List ℕ) → Option (Option (List ℕ))
utf8_tolower iswupper towlower size none = some none
utf8_tolower iswupper towlower size (some str) =
    elim (map_case ascii_lower iswupper towlower 0 size str) [
      | none ↦ none
      | some s ↦ some (some s)
    ]

pub utf8_toupper : (ℕ → Bool) → (ℕ → ℕ) → ℕ → Option (List ℕ) → Option (Option (List ℕ))
utf8_toupper iswlower towupper size none = some none
utf8_toupper iswlower towupper size (some str) =
    elim (map_case ascii_upper iswlower towupper 0 size str) [
      | none ↦ none
      | some s ↦ some (some s)
    ]
