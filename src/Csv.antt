-- ===== src/Csv.antt =====
-- src/csvparser.c: the settings of a reader and of a writer, and the C functions on text that both
-- use. Text is the list of its bytes before the terminator.
pub mod Line
pub mod Count
pub mod Reader
pub mod Writer
mod Tests
use solidc.Base.{
  ℕ, zero, suc, ◌+◌, ◌-◌, Bool, true, false, not, ◌&&◌, ◌||◌, Option, none, some, List, [], ◌∷◌,
  leb, ltb, ◌==◌, if◌then◌else◌, get_or, take, length,
}

abbrev pub Bytes : Type 0
Bytes = List ℕ

-- MAX_FIELD_SIZE
abbrev pub max_field_size : ℕ
max_field_size = 1024

-- `CsvReader` without the stream, the arena and the rows
pub record CsvReader : Type 0 where
  pub num_rows : ℕ
  pub delim : ℕ
  pub quote : ℕ
  pub comment : ℕ
  pub has_header : Bool
  pub skip_header : Bool

pub record CsvReaderConfig : Type 0 where
  pub delim : ℕ
  pub quote : ℕ
  pub comment : ℕ
  pub has_header : Bool
  pub skip_header : Bool

abbrev pub default_reader : CsvReader
default_reader = record {
  num_rows = 0;
  delim = b',';
  quote = b'"';
  comment = b'#';
  has_header = true;
  skip_header = false;
}

pub csv_reader_setconfig : CsvReader → CsvReaderConfig → CsvReader
csv_reader_setconfig reader config = record {
  num_rows = reader.num_rows;
  delim = if config.delim == 0 then reader.delim else config.delim;
  quote = if config.quote == 0 then reader.quote else config.quote;
  comment = if config.comment == 0 then reader.comment else config.comment;
  has_header = config.has_header;
  skip_header = config.skip_header;
}

pub csv_reader_getconfig : CsvReader → CsvReaderConfig
csv_reader_getconfig reader = record {
  delim = reader.delim;
  quote = reader.quote;
  comment = reader.comment;
  has_header = reader.has_header;
  skip_header = reader.skip_header;
}

-- `isspace` of <ctype.h> in the C locale
pub isspace : ℕ → Bool
isspace c = c == 32 || leb 9 c && leb c 13

-- The loop of `str_ltrim`.
pub str_ltrim : Bytes → Bytes
str_ltrim [] = []
str_ltrim (c ∷ str) = let rest = str_ltrim str in if isspace c then rest else c ∷ str

-- The loop of `str_rtrim`, from `len` down.
pub rtrim_len : Bytes → ℕ → ℕ
rtrim_len str zero = 0
rtrim_len str (suc len) =
    let rest = rtrim_len str len in if isspace (get_or str len 0) then rest else suc len

pub str_rtrim : Bytes → Bytes
str_rtrim str = take (rtrim_len str (length str)) str

pub str_trim : Bytes → Bytes
str_trim str = str_ltrim (str_rtrim str)
