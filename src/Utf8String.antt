-- ===== src/Utf8String.antt =====
-- src/unicode.c: the growable string `utf8_string`. `bytes` is the content of `data` up to its
-- terminator; C strings, NULL and the allocator are modelled as in the other files.
pub mod Holds
pub mod Change
pub mod Insert
pub mod Remove
pub mod Range
pub mod Concat
mod Tests
use solidc.Base.{
  ℕ, zero, suc, ◌+◌, ◌-◌, ◌*◌, ◌%◌, ◌^◌, Bool, true, false, Option, none, some, List, [], ◌∷◌, ◌++◌,
  ltb, leb, ◌==◌, ◌&&◌, ◌||◌, if◌then◌else◌, size_max, take, drop,
}
use solidc.Unicode.{utf8_valid_byte_count, utf8_count_codepoints, utf8_char_length}

-- `struct utf8_string`
pub record Utf8String : Type 0 where
  pub bytes : List ℕ
  pub length : ℕ
  pub count : ℕ
  pub capacity : ℕ

abbrev pub struct_size : ℕ
struct_size = 32

module _ (grants : ℕ → Bool) where
  pub utf8_string_alloc : ℕ → Option Utf8String
  utf8_string_alloc data_capacity =
      if ltb (size_max - struct_size - 1) data_capacity
      then none
      else if grants (struct_size + data_capacity + 1)
      then some (record { bytes = []; length = 0; count = 0; capacity = data_capacity })
      else none

  pub utf8_string_grow : Utf8String → ℕ → Bool × Utf8String
  utf8_string_grow s min_capacity =
      if leb min_capacity s.capacity
      then (true, s)
      else let doubled = s.capacity * 2 % 2 ^ 64 in
        let new_capacity = if ltb doubled min_capacity then min_capacity else doubled in
        if ltb (size_max - struct_size - 1) new_capacity
        then (false, s)
        else if grants (struct_size + new_capacity + 1)
        then (true, record s { capacity = new_capacity })
        else (false, s)

  pub utf8_copy : Option (List ℕ) → Option (List ℕ)
  utf8_copy none = none
  utf8_copy (some text) =
      let length = utf8_valid_byte_count (some text) in
      if grants (length + 1) then some (take length text) else none

  pub utf8_new : Option (List ℕ) → Option Utf8String
  utf8_new none = none
  utf8_new (some text) =
      let length = utf8_valid_byte_count (some text) in
      elim (utf8_string_alloc length) [
        | none ↦ none
        | some s ↦ some (record s {
          bytes = take length text;
          length = length;
          count = utf8_count_codepoints (some (take length text));
        })
      ]

  pub utf8_clone : Option Utf8String → Option Utf8String
  utf8_clone none = none
  utf8_clone (some s) = utf8_new (some s.bytes)

  pub utf8_concat : Option Utf8String → Option Utf8String → Option Utf8String
  utf8_concat none s2 = none
  utf8_concat (some s1) none = none
  utf8_concat (some s1) (some s2) = elim (utf8_string_alloc ((s1.length + s2.length) % 2 ^ 64)) [
    | none ↦ none
    | some result ↦ some (record result {
      bytes = take s1.length s1.bytes ++ take s2.length s2.bytes;
      length = (s1.length + s2.length) % 2 ^ 64;
      count = s1.count + s2.count;
    })
  ]

  pub utf8_append : Option Utf8String → Option (List ℕ) → Bool × Option Utf8String
  utf8_append none text = (false, none)
  utf8_append (some s) none = (false, some s)
  utf8_append (some s) (some text) =
      let length = utf8_valid_byte_count (some text) in
      let count = utf8_count_codepoints (some text) in
      let (done, s') = utf8_string_grow s ((s.length + length) % 2 ^ 64) in
      if done
      then (
        true,
        some (record s' {
          bytes = take s'.length s'.bytes ++ take length text;
          length = s'.length + length;
          count = s'.count + count;
        }),
      )
      else (false, some s')

  pub utf8_insert : Option Utf8String → ℕ → Option (List ℕ) → Bool × Option Utf8String
  utf8_insert none index text = (false, none)
  utf8_insert (some s) index none = (false, some s)
  utf8_insert (some s) index (some text) =
      if ltb s.length index
      then (false, some s)
      else let length = utf8_valid_byte_count (some text) in
        let count = utf8_count_codepoints (some text) in
        if length == 0
        then (true, some s)
        else let (done, s') = utf8_string_grow s ((s.length + length) % 2 ^ 64) in
          if done
          then (
            true,
            some (record s' {
              bytes = take index s'.bytes ++ (take length text ++ drop index s'.bytes);
              length = s'.length + length;
              count = s'.count + count;
            }),
          )
          else (false, some s')

-- The loop of `utf8_remove`, over the bytes from `i` on, with what `count - removed` is; the result
-- is `i` and the number of rounds. It runs on fuel, `none` when that runs out.
pub remove_loop : ℕ → List ℕ → ℕ → ℕ → ℕ → ℕ → Option (ℕ × ℕ)
remove_loop zero bytes length i removed count = none
remove_loop (suc fuel) bytes length i removed count =
    let len = utf8_char_length (some (drop i bytes)) in
    let rest = remove_loop fuel bytes length (i + len) (removed + 1) count in
    if ltb removed count && ltb i length
    then (if len == 0 then some (i, removed) else rest)
    else some (i, removed)

pub utf8_remove : Option Utf8String → ℕ → ℕ → Option (Bool × Option Utf8String)
utf8_remove none index count = some (false, none)
utf8_remove (some s) index count =
    if leb s.length index || count == 0
    then some (false, some s)
    else elim (remove_loop (suc s.length) s.bytes s.length index 0 count) [
      | none ↦ none
      | some (i, removed) ↦
          let end = if ltb s.length i then s.length else i in
          some (
            true,
            some (record s {
              bytes = take index s.bytes ++ drop end s.bytes;
              length = s.length - (end - index);
              count = s.count - removed;
            }),
          )
    ]

-- The result of `utf8_substr`: NULL, the copy, or a read past the end of the buffer.
pub data Substr : Type 0 where
  null overrun : Substr
  copy : List ℕ → Substr

pub utf8_substr : (ℕ → Bool) → Option Utf8String → ℕ → ℕ → Substr
utf8_substr grants none index utf8_byte_len = null
utf8_substr grants (some s) index utf8_byte_len =
    if leb s.length index || utf8_byte_len == 0
    then null
    else let len =
        if ltb s.length ((index + utf8_byte_len) % 2 ^ 64)
        then s.length - index
        else utf8_byte_len in
      if grants ((len + 1) % 2 ^ 64)
      then (if ltb s.length (index + len) then overrun else copy (take len (drop index s.bytes)))
      else null
