-- ===== src/Csv/Reader/Array.antt =====
-- The array of rows of src/csvparser.c.
use mathlib.Core.List.{map}
use solidc.Base.{
  ℕ, zero, suc, ◌-◌, ◌*◌, ◌%◌, ◌^◌, ◌≤◌, ◌<◌, ◌≡◌, ◌≢◌, ap, ◌∙◌, inl, inr, Bool, true, none, some,
  List, [], ◌∷◌, ◌++◌, length, replicate, arith, Bool-cases, Option-cases, ne→==,
}
use solidc.Csv.{Bytes}
use solidc.Csv.Reader.{RowArray, fill, allocate_each, csv_allocate_rows}

-- `rows` and then rows that nothing was written to, `num_rows` in all.
abbrev pub padded : ℕ → List (List Bytes) → RowArray
padded num_rows rows = map some rows ++ replicate (num_rows - length rows) none

pub fill-replicate :
    (rows : List (List Bytes)) (num_rows : ℕ)
    → length rows ≤ num_rows
    → fill rows (replicate num_rows none) ≡ padded num_rows rows
unfolding fill
fill-replicate [] num_rows h = ap (λ k. replicate k none) (omega arith)
fill-replicate (row ∷ rows) zero h = absurd (omega arith)
fill-replicate (row ∷ rows) (suc num_rows) h =
    ap (λ a. some row ∷ a)
      (fill-replicate rows num_rows (omega arith)
        ∙ ap (λ k. map some rows ++ replicate k none) (omega arith))

allocate_each-replicate :
    (grants : ℕ → Bool) (num_rows : ℕ) (array : RowArray)
    → allocate_each grants num_rows ≡ some array
    → array ≡ replicate num_rows none
unfolding allocate_each
allocate_each-replicate grants zero array e = cc
allocate_each-replicate grants (suc num_rows) array e = elim (Bool-cases (grants 16)) [
  | inr refused ↦ absurd (ground arith)
  | inl met ↦ elim (Option-cases (allocate_each grants num_rows)) [
    | inl nothing ↦ absurd (ground arith)
    | inr (rest, found) ↦
        let same : array ≡ none ∷ rest = ground arith in
        same ∙ ap (λ a. none ∷ a) (allocate_each-replicate grants num_rows rest found)
  ]
]

pub csv_allocate_rows-replicate :
    (grants : ℕ → Bool) (num_rows : ℕ) (array : RowArray)
    → csv_allocate_rows grants num_rows ≡ some array
    → array ≡ replicate num_rows none
unfolding csv_allocate_rows
csv_allocate_rows-replicate grants num_rows array e =
    allocate_each-replicate grants num_rows array (ground arith)

module _ (grants : ℕ → Bool) (all : (k : ℕ) → grants k ≡ true) where
  allocate_each-some : (num_rows : ℕ) → allocate_each grants num_rows ≢ none
  unfolding allocate_each
  allocate_each-some zero e = cc
  allocate_each-some (suc num_rows) e = elim (Option-cases (allocate_each grants num_rows)) [
    | inl nothing ↦ allocate_each-some num_rows nothing
    | inr (rest, found) ↦ ground (arith, all 16)
  ]

  pub csv_allocate_rows-some :
      (num_rows : ℕ) → 0 < num_rows → csv_allocate_rows grants num_rows ≢ none
  unfolding csv_allocate_rows
  csv_allocate_rows-some num_rows pos e =
      allocate_each-some num_rows
        (ground (arith, all (num_rows * 8 % 2 ^ 64), ne→== num_rows 0 (omega arith)))
