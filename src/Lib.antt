-- ===== src/Lib.antt =====
-- solidc, a C library of containers, strings and system helpers (src/, include/). This development
-- models the parts of it that are logic of their own, one module tree each:
--
--   DynArray    src/dynarray.c and include/dynarray.h. `dynarray_t` is the record DynArray, whose
--               buffer is a list of slots; dynarray_push is `push`, dynarray_set is `write`, and the
--               other operations go by their C names without the prefix.
--   Unicode     src/unicode.c, the UTF-8 codec. The functions keep their names.
--   Utf8String  src/unicode.c, the growable string `utf8_string`, which calls the codec for the
--               length and the number of characters of what it is given. The functions keep their
--               names; `data` is the list of its bytes up to the terminator.
--   CaseMap     src/unicode.c, utf8_tolower and utf8_toupper. Their common loop is `map_case`, which is
--               given the size of the caller's buffer.
--   Trim        src/unicode.c, the character classes, utf8_ltrim, utf8_rtrim and utf8_trim. The
--               loops are `ltrim_from`, `rtrim_to` and `char_start`.
--   Strsim      src/strsim.c, strsim_levenshtein. The loops over the table are functions of their
--               own: `fill_table` the outer one, `fill_row` the inner one.
--   HashMap     src/map.c. The arrays keys_values and deleted are one list of slots; the functions
--               keep their names. `store` is the loop of map_set, also that of map_resize, inside
--               `rehash`; `get_loop`, `position`, `shift_back` and `next_loop` are the other loops.
--               The hash, the key comparison and the test of the load are parameters.
--   Csv         src/csvparser.c, the reader and the writer, with str_trim of include/str.h. The
--               functions keep their names. Csv.Line has the parser of a line: `parse_round` is one
--               round of its loop; Csv.Count has line_count, Csv.Reader the loops over a file
--               (`parse_rows`; the rows that it gives are those filled in, and `return_rows` gives the
--               array with the rows behind them), and Csv.Writer the writer. The stream functions of
--               the C library are written out for a file that is given as a list of blocks, and for
--               a device that takes a number of bytes.
--   Trie        src/trie.c and include/trie.h. A node is a constructor with its children, nalloc,
--               is_end_of_word and frequency; the functions keep their names, and the loops over a
--               word are `insert_path`, `navigate` and `delete_path`.
--               The position of an insertion is an int8_t, the type `Position`, and its writes are
--               checked against nalloc.
--   StrToNum    src/str_to_num.c. The functions that its macros make are str_to_signed and
--               str_to_unsigned, for a width in bits and a base; strtoimax, strtoumax and strcasecmp
--               are parameters.
--   Base        what the models share: tests, lists, bitwise operations.
--
-- `size_t` has 64 bits. Words and sizes are natural numbers; where the source can wrap, the model
-- writes the wrap or the guard out. A pointer that the source tests against NULL is an `Option`. A
-- function that changes an object returns the object it leaves. The allocator is a parameter of
-- the operations that allocate: it answers for each size in bytes whether the request is met, the
-- same for equal sizes. So does the arena of src/arena.c, which the CSV reader allocates from: its
-- blocks are not modelled, so neither is a refusal that only comes when it is full.
--
-- Fuel: the growth loop of dynarray_push_n runs on the distance to the wanted capacity, since each
-- round grows the capacity by one or more. The binary search of child_index has one more than the
-- number of children, and each round shortens the range by one or more. The loop of utf8_remove
-- has one more than the length of the string, and each round passes a byte or more; so has the
-- outer loop of utf8_rtrim, which goes back by a byte or more in each round. The backward shift of
-- map_remove has one more than the capacity, and ends at a free slot. The probing loops run on the
-- capacity, which bounds them in the source too. The buffers that fgets fills are read with one
-- round more than the file has bytes, and each takes one or more. All other loops recur on the
-- data they walk.
--
-- Not modelled: the opening and closing of files in src/csvparser.c, map_destroy and the variants
-- of src/map.c that take its lock, the contents of buffers past the end of a C string, destruction
-- of nodes, the autocompletion of src/trie.c, the other measures of src/strsim.c, the conversions
-- to floating point of src/str_to_num.c, and the other operations of `utf8_string`. The rest of
-- the library is not modelled: the other containers and parsers, what calls the operating system,
-- floating-point code, and the third-party code under deps/.
pub mod Base
pub mod CaseMap
pub mod Csv
pub mod DynArray
pub mod HashMap
pub mod StrToNum
pub mod Strsim
pub mod Trie
pub mod Trim
pub mod Unicode
pub mod Utf8String
