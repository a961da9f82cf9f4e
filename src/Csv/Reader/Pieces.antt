-- ===== src/Csv/Reader/Pieces.antt =====
-- What fgets returns makes up the stream, in pieces that fit in the buffer.
use mathlib.Core.List.{flat_map}
use solidc.Base.{
  ℕ, zero, suc, ◌≤◌, ◌<◌, ◌≡◌, refl, ap, ◌∙◌, inl, inr, Option, none, some, List, [], ◌∷◌, ◌++◌,
  ◌==◌, get_or, take, length, arith, Bool-cases, length-take,
}
use solidc.Csv.{Bytes, CsvReader, max_field_size}
use solidc.Csv.Reader.{fgets, fgets_all, c_string, trim_end, data_line}

fgets-append : (room : ℕ) (stream : Bytes) → (fgets room stream).0 ++ (fgets room stream).1 ≡ stream
unfolding fgets
fgets-append zero stream = refl
fgets-append (suc room) [] = refl
fgets-append (suc room) (c ∷ stream) = elim (Bool-cases (c == b'\n')) [
  | inl newline ↦ rw newline refl
  | inr other ↦ rw other (ap (λ s. c ∷ s) (fgets-append room stream))
]

length-fgets : (room : ℕ) (stream : Bytes) → length ((fgets room stream).0) ≤ room
unfolding fgets
length-fgets zero stream = omega arith
length-fgets (suc room) [] = omega arith
length-fgets (suc room) (c ∷ stream) = elim (Bool-cases (c == b'\n')) [
  | inl newline ↦ rw newline (omega arith)
  | inr other ↦ rw other (omega (arith, length-fgets room stream))
]

rest_le : (room : ℕ) (stream : Bytes) → length ((fgets room stream).1) ≤ length stream
unfolding fgets
rest_le zero stream = omega arith
rest_le (suc room) [] = omega arith
rest_le (suc room) (c ∷ stream) = elim (Bool-cases (c == b'\n')) [
  | inl newline ↦ rw newline (omega arith)
  | inr other ↦ rw other (omega (arith, rest_le room stream))
]

rest_lt : (room c : ℕ) (stream : Bytes) → length ((fgets (suc room) (c ∷ stream)).1) ≤ length stream
unfolding fgets
rest_lt room c stream = elim (Bool-cases (c == b'\n')) [
  | inl newline ↦ rw newline (omega arith)
  | inr other ↦ rw other (rest_le room stream)
]

-- With one round more than there are bytes, fgets is called until the end of the stream.
pub flat_map-fgets_all :
    (fuel : ℕ) (stream : Bytes)
    → length stream ≤ fuel
    → flat_map (λ b. b) (fgets_all fuel stream) ≡ stream
unfolding fgets_all flat_map
flat_map-fgets_all zero [] h = refl
flat_map-fgets_all zero (c ∷ stream) h = absurd (omega arith)
flat_map-fgets_all (suc fuel) [] h = refl
flat_map-fgets_all (suc fuel) (c ∷ stream) h =
    ap (λ s. (fgets 1023 (c ∷ stream)).0 ++ s)
      (flat_map-fgets_all fuel ((fgets 1023 (c ∷ stream)).1) (omega (arith, rest_lt 1022 c stream)))
    ∙ fgets-append 1023 (c ∷ stream)

-- All are shorter than the buffer.
abbrev pub AreShort : List Bytes → Type 0
AreShort [] = Unit
AreShort (buffer ∷ buffers) = (length buffer < max_field_size) × AreShort buffers

pub fgets_all-AreShort : (fuel : ℕ) (stream : Bytes) → AreShort (fgets_all fuel stream)
unfolding fgets_all
fgets_all-AreShort zero stream = tt
fgets_all-AreShort (suc fuel) [] = tt
fgets_all-AreShort (suc fuel) (c ∷ stream) =
    (omega (arith, length-fgets 1023 (c ∷ stream)), fgets_all-AreShort fuel _)

length-c_string : (buffer : Bytes) → length (c_string buffer) ≤ length buffer
unfolding c_string
length-c_string [] = omega arith
length-c_string (c ∷ buffer) = elim (Bool-cases (c == 0)) [
  | inl nul ↦ rw nul (omega arith)
  | inr other ↦ rw other (omega (arith, length-c_string buffer))
]

-- A line is no longer than `n`, if there is one.
abbrev pub IsWithin : ℕ → Option Bytes → Type 0
IsWithin n none = Unit
IsWithin n (some line) = length line ≤ n

pub data_line-IsWithin :
    (reader : CsvReader) (buffer : Bytes) → IsWithin (length buffer) (data_line reader buffer)
unfolding data_line
data_line-IsWithin reader buffer = elim (Bool-cases (kept == 1)) [
  | inl skipped ↦ rw skipped tt
  | inr other ↦ elim (Bool-cases (get_or (take kept text) 0 0 == reader.comment)) [
    | inl comment ↦ rw other (rw comment tt)
    | inr line ↦ rw other (rw line (omega (arith, length-take kept text, length-c_string buffer)))
  ]
]
  where
    text : Bytes
    text = c_string buffer

    kept : ℕ
    kept = trim_end text (length text)
