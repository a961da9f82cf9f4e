-- ===== src/Csv/Writer.antt =====
-- The writer of src/csvparser.c, on a stream of the C library that takes a number of bytes and then
-- fails.
pub mod Text
pub mod Rows
pub mod RoundTrip
use solidc.Base.{
  ℕ, zero, suc, ◌+◌, ◌-◌, Bool, true, false, not, ◌&&◌, ◌||◌, Option, none, some, List, [], ◌∷◌,
  ◌++◌, ltb, ◌==◌, if◌then◌else◌, take,
}
use solidc.Csv.{Bytes}

-- `left` is how many more bytes the device takes, `syncs` whether it takes a flush, and `error` the
-- error indicator.
pub record Stream : Type 0 where
  pub written : Bytes
  pub left : ℕ
  pub syncs : Bool
  pub error : Bool

abbrev pub Io : Type 0
Io = Bool × Stream

-- the next call on the stream, unless the last one failed
infixl 4 ◌and_then◌
abbrev pub ◌and_then◌ : Io → (Stream → Io) → Io
(true, stream) and_then k = k stream
(false, stream) and_then k = (false, stream)

unfoldable pub fputc : ℕ → Stream → Io
fputc c stream =
    if ltb 0 stream.left
    then (true, record stream { written = stream.written ++ c ∷ []; left = stream.left - 1 })
    else (false, record stream { error = true })

pub fputs : Bytes → Stream → Io
fputs [] stream = (true, stream)
fputs (c ∷ str) stream = fputc c stream and_then fputs str

pub fflush : Stream → Io
fflush stream = if stream.syncs then (true, stream) else (false, record stream { error = true })

-- `CsvWriter`
pub record CsvWriter : Type 0 where
  pub stream : Stream
  pub delim : ℕ
  pub quote : ℕ
  pub newline : ℕ
  pub quote_all : Bool
  pub flush : Bool

pub record CsvWriterConfig : Type 0 where
  pub delim : ℕ
  pub quote : ℕ
  pub newline : ℕ
  pub quote_all : Bool
  pub flush : Bool
  pub append : Bool
  pub first_row : Bool

-- `csvwriter_new`, from the answers of malloc and fopen
pub csvwriter_new : Bool → Option Stream → Option CsvWriter
csvwriter_new granted none = none
csvwriter_new granted (some stream) =
    if granted
    then some (record {
      stream = stream;
      delim = b',';
      quote = b'"';
      newline = b'\n';
      quote_all = false;
      flush = false;
    })
    else none

-- The newline, `append` and `first_row` of the configuration are not read.
pub csvwriter_setconfig : CsvWriter → CsvWriterConfig → CsvWriter
csvwriter_setconfig writer config = record {
  stream = writer.stream;
  delim = if config.delim == 0 then writer.delim else config.delim;
  quote = if config.quote == 0 then writer.quote else config.quote;
  newline = writer.newline;
  quote_all = config.quote_all;
  flush = config.flush;
}

-- `strchr(str, c) != NULL`, which finds the terminator too
unfoldable pub strchr : Bytes → ℕ → Bool
strchr [] c = c == 0
strchr (b ∷ str) c = b == c || strchr str c

unfoldable pub field_needs_quoting : Bytes → ℕ → ℕ → ℕ → Bool
field_needs_quoting field delim quote newline =
    strchr field delim || strchr field quote || strchr field newline

-- The loop of `write_quoted_field`.
unfoldable pub write_escaped : Bytes → ℕ → Stream → Io
write_escaped [] quote stream = (true, stream)
write_escaped (c ∷ field) quote stream =
    (if c == quote then fputc quote stream and_then fputc quote else fputc c stream)
    and_then write_escaped field quote

unfoldable pub write_quoted_field : Bytes → ℕ → Stream → Io
write_quoted_field field quote stream =
    fputc quote stream and_then λ s. write_escaped field quote s and_then fputc quote

pub write_single_field : Option Bytes → Bool → ℕ → ℕ → ℕ → Stream → Io
write_single_field none quote_all delim quote newline stream =
    if quote_all || field_needs_quoting [] delim quote newline
    then write_quoted_field [] quote stream
    else fputs [] stream
write_single_field (some field) quote_all delim quote newline stream =
    if quote_all || field_needs_quoting field delim quote newline
    then write_quoted_field field quote stream
    else fputs field stream

-- The loop of `csvwriter_write_row` from the field `i` on.
pub write_fields : CsvWriter → ℕ → List (Option Bytes) → Stream → Io
write_fields w i [] stream = (true, stream)
write_fields w i (field ∷ fields) stream =
    (if ltb 0 i then fputc w.delim stream else (true, stream)) and_then λ s.
    write_single_field field w.quote_all w.delim w.quote w.newline s
    and_then write_fields w (i + 1) fields

-- `flush_and_exit` where `fp` is the stream
pub flush_and_exit : CsvWriter → Stream → Io
flush_and_exit w stream =
    (if w.flush then fflush stream else (true, stream)) and_then λ s. (not s.error, s)

-- The result and the stream of the writer; `none` is the call `ferror(fp)` where `fp` is NULL. The
-- array of fields has `numfields` elements or more.
unfoldable pub csvwriter_write_row :
    Option CsvWriter → Option (List (Option Bytes)) → ℕ → Option (Bool × Option Stream)
csvwriter_write_row none fields numfields = some (false, none)
csvwriter_write_row (some w) none zero =
    let (ok, s) = fputc w.newline w.stream in if ok then none else some (false, some s)
csvwriter_write_row (some w) none (suc n) = some (false, some w.stream)
csvwriter_write_row (some w) (some fields) zero =
    let (ok, s) = fputc w.newline w.stream in if ok then none else some (false, some s)
csvwriter_write_row (some w) (some fields) (suc n) =
    let stream = w.stream in
    let (ok, s) =
      write_fields w 0 (take (suc n) fields) stream
      and_then fputc w.newline
      and_then flush_and_exit w in
    if stream.error then some (false, some stream) else some (ok, some s)
