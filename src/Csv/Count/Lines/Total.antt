-- ===== src/Csv/Count/Lines/Total.antt =====
-- line_count of src/csvparser.c counts the lines of data of the whole stream.
use mathlib.Core.List.{map, flat_map}
use solidc.Base.{
  ℕ, ◌+◌, ◌-◌, ◌≡◌, refl, sym, ap, ◌∙◌, inl, inr, Bool, true, false, not, ◌&&◌, List, [], ◌∷◌, ◌++◌,
  ◌==◌, if◌then◌else◌, arith, Bool-cases, ne→==,
}
use solidc.Csv.{Bytes, CsvReader}
use solidc.Csv.Count.{
  Counting, drops_header, count_char, count_block, count_blocks, start, line_count,
}
use solidc.Csv.Count.Lines.{
  split, is_data, count_true, data_lines, and_false, bump, total, final, counts-fresh,
  count_block-total,
}

module _ (reader : CsvReader) where
  -- Once the header is left out, or a line was counted, every line counts.
  total-all :
      (flags : List Bool) (n : ℕ) (header : Bool)
      → (drops_header reader && (not header && n == 0)) ≡ false
      → total reader n header flags ≡ n + count_true flags
  unfolding total bump count_true
  total-all [] n header h = omega arith
  total-all (false ∷ flags) n header h = total-all flags n header h ∙ omega arith
  total-all (true ∷ flags) n header h =
      let more : (drops_header reader && (not header && n + 1 == 0)) ≡ false =
        ap (λ b. drops_header reader && (not header && b)) (ne→== (n + 1) 0 (λ e. omega (arith, e)))
        ∙ ap (λ b. drops_header reader && b) (and_false (not header))
        ∙ and_false (drops_header reader) in
      rw h (total-all flags (n + 1) header more ∙ omega arith)

  total-header :
      (flags : List Bool)
      → drops_header reader ≡ true
      → total reader 0 false flags ≡ count_true flags - 1
  unfolding total bump count_true
  total-header [] h = omega arith
  total-header (false ∷ flags) h = total-header flags h ∙ ap (λ k. k - 1) (omega arith)
  total-header (true ∷ flags) h =
      rw h (total-all flags 0 true (and_false (drops_header reader)) ∙ omega arith)

  count_block-append :
      (block text : Bytes) (s : Counting)
      → count_block reader (block ++ text) s ≡ count_block reader text (count_block reader block s)
  unfolding count_block
  count_block-append [] text s = refl
  count_block-append (c ∷ block) text s = count_block-append block text (count_char reader c s)

  count_blocks-flat :
      (blocks : List Bytes) (s : Counting)
      → count_blocks reader blocks s ≡ count_block reader (flat_map (λ b. b) blocks) s
  unfolding count_blocks count_block flat_map
  count_blocks-flat [] s = refl
  count_blocks-flat (block ∷ blocks) s =
      count_blocks-flat blocks (count_block reader block s)
      ∙ sym (count_block-append block (flat_map (λ b. b) blocks) s)

  -- line_count gives the number of lines of the whole stream that do not start with the comment character
  -- and have a character that is not a blank, wherever the blocks end that fread returns; when the
  -- reader has a header and skips it, one less, if there is any.
  pub line_count_lem :
      (blocks : List Bytes)
      → line_count reader blocks ≡ (
          let lines = data_lines reader (flat_map (λ b. b) blocks) in
          if drops_header reader then lines - 1 else lines)
  unfolding line_count data_lines final
  line_count_lem blocks =
      let text : Bytes = flat_map (λ b. b) blocks in
      let flags : List Bool = map (is_data reader) ((split text).0 ∷ (split text).1) in
      let counted : line_count reader blocks ≡ total reader 0 false flags =
        ap (final reader) (count_blocks-flat blocks start)
        ∙ count_block-total reader text 0 false true false true
        ∙ ap (λ f. total reader 0 false (f ∷ map (is_data reader) ((split text).1)))
            (counts-fresh reader ((split text).0)) in
      elim (Bool-cases (drops_header reader)) [
        | inl heads ↦ counted ∙ rw heads (total-header flags heads)
        | inr every ↦ counted ∙ rw every (total-all flags 0 false (rw every refl) ∙ omega arith)
      ]
