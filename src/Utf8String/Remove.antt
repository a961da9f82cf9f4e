-- ===== src/Utf8String/Remove.antt =====
-- `utf8_remove` of src/unicode.c.
use mathlib.Core.Path.{ap₂}
use solidc.Base.{
  ℕ, zero, suc, ◌+◌, ◌-◌, ◌≤◌, ◌<◌, ◌≡◌, refl, sym, ap, ◌∙◌, inl, inr, true, some, List, [], ◌∷◌,
  ◌++◌, append_assoc, arith, length, take, drop, length-append, lt→ltb, ne→==,
}
use solidc.Unicode.{IsScalar, utf8_char_length, max_codepoint, ucp_to_utf8}
use solidc.Unicode.Valid.{AreScalars, encode_all}
use solidc.Utf8String.{Utf8String, remove_loop, utf8_remove}
use solidc.Unicode.Count.{utf8_char_length-ucp_to_utf8}
use solidc.Utf8String.Insert.{whole, length_parts, before}
use solidc.Utf8String.Change.{drop-append}
use solidc.Utf8String.Holds.{
  AreScalars-left, AreScalars-right, length-ucp_to_utf8_pos, Holds, AreScalars-append,
  encode_all-append,
}

pub take-append_drop : (n : ℕ) (xs : List ℕ) → take n xs ++ drop n xs ≡ xs
take-append_drop zero xs = refl
take-append_drop (suc n) [] = refl
take-append_drop (suc n) (x ∷ xs) = ap (λ t. x ∷ t) (take-append_drop n xs)

-- The length that the loop reads at the start of an encoding.
char_length_at :
    (bytes pre : List ℕ) (z : ℕ) (rest : List ℕ) (i : ℕ)
    → bytes ≡ pre ++ (ucp_to_utf8 z ++ rest)
    → i ≡ length pre
    → z ≤ max_codepoint
    → utf8_char_length (some (drop i bytes)) ≡ length (ucp_to_utf8 z)
char_length_at bytes pre z rest i e p h =
    rw (e, p, drop-append pre (ucp_to_utf8 z ++ rest)) (utf8_char_length-ucp_to_utf8 z rest h)

IsScalar-max : (z : ℕ) → IsScalar z → z ≤ max_codepoint
IsScalar-max z (inl low) = omega arith
IsScalar-max z (inr (above, most)) = most

length-spelled :
    (bytes pre : List ℕ) (z : ℕ) (zs : List ℕ)
    → bytes ≡ pre ++ encode_all (z ∷ zs)
    → length bytes ≡ length pre + (length (ucp_to_utf8 z) + length (encode_all zs))
length-spelled bytes pre z zs e =
    ap length e
    ∙ length-append pre (ucp_to_utf8 z ++ encode_all zs)
    ∙ ap (λ t. length pre + t) (length-append (ucp_to_utf8 z) (encode_all zs))

-- The loop passes over `m` scalar values, or over all that are left, within its fuel.
remove_loop_lem :
    (fuel : ℕ) (bytes pre zs : List ℕ) (i removed count m : ℕ)
    → bytes ≡ pre ++ encode_all zs
    → i ≡ length pre
    → removed + m ≡ count
    → AreScalars zs
    → length bytes < fuel + i
    → 0 < fuel
    → remove_loop fuel bytes (length bytes) i removed count
      ≡ some (i + length (encode_all (take m zs)), removed + length (take m zs))
unfolding remove_loop
remove_loop_lem zero bytes pre zs i removed count m e p q h f k = elim k [ ]
remove_loop_lem (suc fuel) bytes pre zs i removed count zero e p q h f k = ground (arith)
remove_loop_lem (suc fuel) bytes pre [] i removed count (suc m) e p q h f k =
    ground (arith, ap length e, length-append pre [])
remove_loop_lem (suc fuel) bytes pre (z ∷ zs) i removed count (suc m) e p q h f k =
    let len = char_length_at bytes pre z (encode_all zs) i e p (IsScalar-max z h.0) in
    let nonzero = length-ucp_to_utf8_pos z h.0 in
    let total = length-spelled bytes pre z zs e in
    let rec =
      remove_loop_lem fuel bytes (pre ++ ucp_to_utf8 z) zs (i + length (ucp_to_utf8 z))
        (removed + 1) count m (e ∙ sym (append_assoc pre (ucp_to_utf8 z) (encode_all zs)))
        (omega (arith, length-append pre (ucp_to_utf8 z))) (omega arith) h.2
        (omega (arith, nonzero)) (omega (arith, nonzero, total)) in
    rw
      (
        lt→ltb removed count (omega arith),
        lt→ltb i (length bytes) (omega (arith, total, nonzero)),
        len,
        ne→== (length (ucp_to_utf8 z)) 0 (omega (arith, nonzero)),
      )
      (rec
        ∙ ap some (
            ap₂ (λ a b. (a, b))
              (omega (arith, length-append (ucp_to_utf8 z) (encode_all (take m zs))))
              (omega arith)))

AreScalars-drop : (n : ℕ) (xs : List ℕ) → AreScalars xs → AreScalars (drop n xs)
AreScalars-drop zero xs h = h
AreScalars-drop (suc n) [] h = h
AreScalars-drop (suc n) (x ∷ xs) h = AreScalars-drop n xs h.2

drop-past : (xs ys : List ℕ) (n : ℕ) → drop (length xs + n) (xs ++ ys) ≡ drop n ys
drop-past [] ys n = ap (λ k. drop k ys) (omega arith)
drop-past (x ∷ xs) ys n = rw (suc_sum (length xs) n) (drop-past xs ys n)
  where
    suc_sum : (a b : ℕ) → suc a + b ≡ suc (a + b)
    suc_sum a b = omega arith

length-encode_all_pos : (zs : List ℕ) → AreScalars zs → 0 < length zs → 0 < length (encode_all zs)
length-encode_all_pos [] h k = k
length-encode_all_pos (z ∷ zs) h k =
    omega (arith, length-append (ucp_to_utf8 z) (encode_all zs), length-ucp_to_utf8_pos z h.0)

module _ (s : Utf8String) (xs zs : List ℕ) (count : ℕ) (v : Holds s (xs ++ zs)) where
  split : encode_all zs ≡ encode_all (take count zs) ++ encode_all (drop count zs)
  split =
      sym (ap encode_all (take-append_drop count zs))
      ∙ encode_all-append (take count zs) (drop count zs)

  length_split :
      length (encode_all zs)
      ≡ length (encode_all (take count zs)) + length (encode_all (drop count zs))
  length_split =
      ap length split ∙ length-append (encode_all (take count zs)) (encode_all (drop count zs))

  length_zs : length zs ≡ length (take count zs) + length (drop count zs)
  length_zs =
      ap length (sym (take-append_drop count zs)) ∙ length-append (take count zs) (drop count zs)

  length_bytes : length s.bytes ≡ s.length
  length_bytes = ap length v.bytes_eq ∙ sym v.length_eq

  loop :
      (index : ℕ)
      → index ≡ length (encode_all xs)
      → remove_loop (suc s.length) s.bytes s.length index 0 count
        ≡ some (index + length (encode_all (take count zs)), length (take count zs))
  loop index e =
      ap (λ n. remove_loop (suc s.length) s.bytes n index 0 count) (sym length_bytes)
      ∙ remove_loop_lem (suc s.length) s.bytes (encode_all xs) zs index 0 count count
          (whole s xs zs v) e (omega arith) (AreScalars-right xs zs v.scalars)
          (omega (arith, length_bytes)) (omega arith)
      ∙ ap (λ n. some (index + length (encode_all (take count zs)), n)) (omega arith)

  tail :
      (index : ℕ)
      → index ≡ length (encode_all xs)
      → drop (index + length (encode_all (take count zs))) s.bytes ≡ encode_all (drop count zs)
  tail index e =
      ap (λ n. drop (n + length (encode_all (take count zs))) s.bytes) e
      ∙ ap (λ t. drop (length (encode_all xs) + length (encode_all (take count zs))) t)
          (whole s xs zs v)
      ∙ drop-past (encode_all xs) (encode_all zs) (length (encode_all (take count zs)))
      ∙ ap (λ t. drop (length (encode_all (take count zs))) t) split
      ∙ drop-append (encode_all (take count zs)) (encode_all (drop count zs))

  -- `utf8_remove` of `count` characters at the end of the encoding of `xs`, in a string that holds
  -- `xs` and then a non-empty `zs`, takes the first `count` scalar values of `zs` out, or all of
  -- them when there are fewer; its loop ends.
  pub utf8_remove_lem :
      (index : ℕ)
      → index ≡ length (encode_all xs)
      → 0 < count
      → 0 < length zs
      → (s' : Utf8String) × (utf8_remove (some s) index count ≡ some (true, some s'))
        × Holds s' (xs ++ drop count zs)
  unfolding utf8_remove
  utf8_remove_lem index e pos some_left = (
    record s {
      bytes = encode_all xs ++ encode_all (drop count zs);
      length = s.length - length (encode_all (take count zs));
      count = s.count - length (take count zs);
    },
    ground (
      arith,
      loop index e,
      length_parts s xs zs v,
      length_split,
      length-encode_all_pos zs (AreScalars-right xs zs v.scalars) some_left,
      tail index e,
      ap (λ n. take n s.bytes) e,
      before s xs zs v,
    ),
    record {
      scalars =
          AreScalars-append xs (drop count zs) (AreScalars-left xs zs v.scalars)
            (AreScalars-drop count zs (AreScalars-right xs zs v.scalars));
      bytes_eq = sym (encode_all-append xs (drop count zs));
      length_eq = rw (encode_all-append xs (drop count zs)) (
          omega (
            arith,
            length_parts s xs zs v,
            length_split,
            length-append (encode_all xs) (encode_all (drop count zs)),
          ));
      count_eq =
          omega
            (arith, v.count_eq, length-append xs zs, length-append xs (drop count zs), length_zs);
      room = omega (arith, v.room);
      small = v.small;
    },
  )
