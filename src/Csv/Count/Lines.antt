-- ===== src/Csv/Count/Lines.antt =====
-- line_count of src/csvparser.c inside a line, and the lines of a text.
pub mod Total
use mathlib.Core.List.{map, flat_map}
use solidc.Base.{
  ℕ, zero, suc, ◌+◌, ◌-◌, ◌≤◌, ◌<◌, ◌≡◌, refl, sym, ap, ◌∙◌, inl, inr, Bool, true, false, not, ◌&&◌,
  ◌||◌, List, [], ◌∷◌, ◌++◌, append_assoc, append-nil, ◌==◌, if◌then◌else◌, arith, Bool-cases,
  ne→==,
}
use solidc.Csv.{Bytes, CsvReader}
use solidc.Csv.Count.{
  Counting, drops_header, end_line, is_blank, count_char, count_block, count_blocks, start,
  line_count,
}

-- The lines of a text: the first one, and the others.
unfoldable pub split : Bytes → Bytes × List Bytes
split [] = ([], [])
split (c ∷ text) =
    let (first, others) = split text in
    if c == b'\n' then ([], first ∷ others) else (c ∷ first, others)

-- A byte that is not a blank.
unfoldable pub has_content : Bytes → Bool
has_content [] = false
has_content (c ∷ line) = not (is_blank c) || has_content line

-- A line of data is not a comment and has content.
unfoldable pub is_data : CsvReader → Bytes → Bool
is_data reader [] = false
is_data reader (c ∷ line) = not (c == reader.comment) && has_content (c ∷ line)

pub count_true : List Bool → ℕ
count_true [] = 0
count_true (b ∷ flags) = (if b then 1 else 0) + count_true flags

pub data_lines : CsvReader → Bytes → ℕ
data_lines reader text =
    let (first, others) = split text in count_true (map (is_data reader) (first ∷ others))

gathers : (a b x : Bool) → (not a || (not b || x)) ≡ (not (a && b) || x)
gathers true b x = refl
gathers false b x = refl

split-newline :
    (c : ℕ) (text : Bytes)
    → (c == b'\n') ≡ true
    → split (c ∷ text) ≡ ([], (split text).0 ∷ (split text).1)
unfolding split
split-newline c text h = rw h refl

split-other :
    (c : ℕ) (text : Bytes)
    → (c == b'\n') ≡ false
    → split (c ∷ text) ≡ (c ∷ (split text).0, (split text).1)
unfolding split
split-other c text h = rw h refl

pub and_false : (b : Bool) → (b && false) ≡ false
and_false true = refl
and_false false = refl

module _ (reader : CsvReader) where
  abbrev pub state : ℕ → Bool → Bool → Bool → Bool → Counting
  state n header first skip blank = record {
    lines = n;
    header_skipped = header;
    line_first_char = first;
    skip_this_line = skip;
    blank_line = blank;
  }

  -- Whether the present line counts, when `line` is the rest of it.
  pub counts : Bool → Bool → Bool → Bytes → Bool
  counts first true blank line = false
  counts false false blank line = not blank || has_content line
  counts true false blank [] = not blank
  counts true false blank (c ∷ line) =
      not (c == reader.comment) && (not blank || has_content (c ∷ line))

  pub bump : ℕ → Bool → Bool → ℕ × Bool
  bump n header false = (n, header)
  bump n header true =
      if drops_header reader && (not header && n == 0) then (n, true) else (n + 1, header)

  pub total : ℕ → Bool → List Bool → ℕ
  total n header [] = n
  total n header (b ∷ flags) = total ((bump n header b).0) ((bump n header b).1) flags

  pub final : Counting → ℕ
  final s =
      if not s.skip_this_line && not s.blank_line
      then if drops_header reader && (not s.header_skipped && s.lines == 0)
        then s.lines
        else s.lines + 1
      else s.lines

  pub counts-fresh : (line : Bytes) → counts true false true line ≡ is_data reader line
  unfolding counts is_data
  counts-fresh [] = refl
  counts-fresh (c ∷ line) = refl

  counts-nil : (first skip blank : Bool) → (not skip && not blank) ≡ counts first skip blank []
  unfolding counts has_content
  counts-nil first true blank = refl
  counts-nil true false blank = refl
  counts-nil false false true = refl
  counts-nil false false false = refl

  end_line-bump :
      (n : ℕ) (header first skip blank : Bool)
      → end_line reader (state n header first skip blank)
        ≡ (let b = bump n header (counts first skip blank []) in state b.0 b.1 first skip blank)
  unfolding end_line bump
  end_line-bump n header first skip blank = elim (Bool-cases (not skip && not blank)) [
    | inl content ↦ elim (Bool-cases (drops_header reader && (not header && n == 0))) [
      | inl heads ↦ rw (sym (counts-nil first skip blank)) (rw content (rw heads refl))
      | inr goes ↦ rw (sym (counts-nil first skip blank)) (rw content (rw goes refl))
    ]
    | inr nothing ↦ rw (sym (counts-nil first skip blank)) (rw nothing refl)
  ]

  final-bump :
      (n : ℕ) (header first skip blank : Bool)
      → final (state n header first skip blank) ≡ (bump n header (counts first skip blank [])).0
  unfolding final bump
  final-bump n header first skip blank = elim (Bool-cases (not skip && not blank)) [
    | inl content ↦ elim (Bool-cases (drops_header reader && (not header && n == 0))) [
      | inl heads ↦ rw (sym (counts-nil first skip blank)) (rw content (rw heads refl))
      | inr goes ↦ rw (sym (counts-nil first skip blank)) (rw content (rw goes refl))
    ]
    | inr nothing ↦ rw (sym (counts-nil first skip blank)) (rw nothing refl)
  ]

  counts-step :
      (c : ℕ) (line : Bytes) (n : ℕ) (header first skip blank : Bool)
      → (c == b'\n') ≡ false
      → (first' : Bool) × (skip' : Bool) × (blank' : Bool) × (count_char reader c
            (state n header first skip blank)
          ≡ state n header first' skip' blank')
        × (counts first skip blank (c ∷ line) ≡ counts first' skip' blank' line)
  unfolding count_char counts has_content
  counts-step c line n header first true blank h = (first, true, blank, rw h refl, refl)
  counts-step c line n header false false blank h =
      (false, false, blank && is_blank c, rw h refl, gathers blank (is_blank c) (has_content line))
  counts-step c line n header true false blank h = elim (Bool-cases (c == reader.comment)) [
    | inl comment ↦ (false, true, blank, rw h (rw comment refl), rw comment refl)
    | inr other ↦ (
      false,
      false,
      blank && is_blank c,
      rw h (rw other refl),
      rw other (gathers blank (is_blank c) (has_content line)),
    )
  ]

  count_char-newline :
      (c n : ℕ) (header first skip blank : Bool)
      → (c == b'\n') ≡ true
      → count_char reader c (state n header first skip blank)
        ≡ (let b = bump n header (counts first skip blank []) in state b.0 b.1 true false true)
  unfolding count_char
  count_char-newline c n header first skip blank h = rw h (
      ap {A = Counting}
        (λ t. record t { skip_this_line = false; blank_line = true; line_first_char = true })
        (end_line-bump n header first skip blank))

  -- The count from a state in the middle of a line.
  pub count_block-total :
      (text : Bytes) (n : ℕ) (header first skip blank : Bool)
      → final (count_block reader text (state n header first skip blank))
        ≡ total n header
            (counts first skip blank ((split text).0) ∷ map (is_data reader) ((split text).1))
  unfolding count_block split total
  count_block-total [] n header first skip blank = final-bump n header first skip blank
  count_block-total (c ∷ text) n header first skip blank = elim (Bool-cases (c == b'\n')) [
    | inl newline ↦
        let b = bump n header (counts first skip blank []) in
        ap (λ s. final (count_block reader text s))
          (count_char-newline c n header first skip blank newline)
        ∙ count_block-total text b.0 b.1 true false true
        ∙ ap (λ f. total b.0 b.1 (f ∷ map (is_data reader) ((split text).1)))
            (counts-fresh ((split text).0))
        ∙ ap (λ p. total n header (counts first skip blank p.0 ∷ map (is_data reader) p.1))
            (sym (split-newline c text newline))
    | inr other ↦
        let (first', skip', blank', steps, same) =
          counts-step c ((split text).0) n header first skip blank other in
        ap (λ s. final (count_block reader text s)) steps
        ∙ count_block-total text n header first' skip' blank'
        ∙ ap (λ f. total n header (f ∷ map (is_data reader) ((split text).1))) (sym same)
        ∙ ap (λ p. total n header (counts first skip blank p.0 ∷ map (is_data reader) p.1))
            (sym (split-other c text other))
  ]
