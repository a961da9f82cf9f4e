-- ===== src/DynArray/Layout.antt =====
-- What the buffer of src/dynarray.c holds: the elements, then spare slots.
use solidc.Base.{
  ℕ, zero, suc, ◌+◌, ◌*◌, ◌≤◌, ◌<◌, ◌≡◌, refl, ap, ◌∙◌, Option, some, List, [], ◌∷◌, ◌++◌, map,
  append_assoc, append-nil, arith, size_max, length, set, get_elem?, length-append,
}
use native.Mathlib.Nat.{zero-add, suc-add}
use solidc.DynArray.{DynArray, resize, copy_to, read_slot}

module _ {ℓ} {A : Type ℓ} where
  pub length-resize : (n : ℕ) (slots : List (Option A)) → length (resize n slots) ≡ n
  unfolding resize
  length-resize zero slots = refl
  length-resize (suc n) [] = ap suc (length-resize n [])
  length-resize (suc n) (x ∷ slots) = ap suc (length-resize n slots)

  -- A block that keeps room for `xs` keeps them.
  pub resize-append :
      (xs : List A) (n : ℕ) (spare : List (Option A))
      → resize (length xs + n) (map some xs ++ spare) ≡ map some xs ++ resize n spare
  unfolding resize
  resize-append [] n spare = rw zero-add
  resize-append (x ∷ xs) n spare = rw suc-add (ap (λ ys. some x ∷ ys) (resize-append xs n spare))

  pub read_slot-append :
      (xs : List A) (x : A) (spare : List (Option A))
      → read_slot (map some xs ++ some x ∷ spare) (length xs) ≡ some x
  unfolding read_slot
  read_slot-append [] x spare = refl
  read_slot-append (y ∷ xs) x spare = read_slot-append xs x spare

  pub read_slot-get_elem? :
      (xs : List A) (i : ℕ) (spare : List (Option A))
      → i < length xs
      → read_slot (map some xs ++ spare) i ≡ get_elem? xs i
  unfolding read_slot
  read_slot-get_elem? [] i spare h = absurd (omega arith)
  read_slot-get_elem? (x ∷ xs) zero spare h = refl
  read_slot-get_elem? (x ∷ xs) (suc i) spare h = read_slot-get_elem? xs i spare (omega arith)

  pub set-map :
      (xs : List A) (i : ℕ) (v : A) (spare : List (Option A))
      → i < length xs
      → set (map some xs ++ spare) i (some v) ≡ map some (set xs i v) ++ spare
  set-map [] i v spare h = absurd (omega arith)
  set-map (x ∷ xs) zero v spare h = refl
  set-map (x ∷ xs) (suc i) v spare h = ap (λ ys. some x ∷ ys) (set-map xs i v spare (omega arith))

  -- `memcpy` behind the elements, into spare slots
  pub set-length :
      (xs : List A) (v : A) (s : Option A) (spare : List (Option A))
      → set (map some xs ++ s ∷ spare) (length xs) (some v) ≡ map some (xs ++ v ∷ []) ++ spare
  set-length [] v s spare = refl
  set-length (x ∷ xs) v s spare = ap (λ ys. some x ∷ ys) (set-length xs v s spare)

  -- The array holds `xs`: its first slots, with `spare` behind them; and its sizes are in range.
  pub record Holds (arr : DynArray A) (xs : List A) : Type ℓ where
    pub spare : List (Option A)
    pub layout : arr.slots ≡ map some xs ++ spare
    pub size_eq : arr.size ≡ length xs
    pub capacity_eq : arr.capacity ≡ length xs + length spare
    pub element_pos : 0 < arr.element_size
    pub fits : arr.capacity * arr.element_size ≤ size_max

  pub copy_to-append :
      (ys xs : List A) (spare : List (Option A)) (i : ℕ)
      → i ≡ length xs
      → length ys ≤ length spare
      → (rest : List (Option A)) × (copy_to (map some xs ++ spare) i ys
          ≡ map some (xs ++ ys) ++ rest)
        × (length ys + length rest ≡ length spare)
  unfolding copy_to
  copy_to-append [] xs spare i e h = (spare, rw append-nil, omega arith)
  copy_to-append (y ∷ ys) xs [] i e h = absurd (omega arith)
  copy_to-append (y ∷ ys) xs (s ∷ spare) i e h =
      let (rest, p, q) =
        copy_to-append ys (xs ++ y ∷ []) spare (i + 1) (omega (arith, length-append xs (y ∷ [])))
          (omega arith) in
      (
        rest,
        ap (λ l. copy_to l (i + 1) ys) (rw e (set-length xs y s spare))
            ∙ p
            ∙ ap (λ l. map some l ++ rest) (append_assoc xs (y ∷ []) ys),
        omega arith,
      )
