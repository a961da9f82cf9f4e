-- ===== src/Trim/Back.antt =====
-- utf8_rtrim and utf8_trim of src/unicode.c on well-formed text.
use mathlib.Core.List.{reverse, reverse-cons, reverse-reverse}
use solidc.Base.{
  ℕ, zero, suc, ◌+◌, ◌-◌, ◌<◌, ◌≡◌, refl, sym, ap, ◌∙◌, Bool, true, some, List, [], ◌∷◌, ◌++◌,
  append_assoc, append-nil, arith, ◌==◌, if◌then◌else◌, length, length-append, take, drop, lt→ltb,
  ==_refl, Bool-cases, inl, inr,
}
use solidc.Unicode.{ucp_to_utf8, utf8_char_length, IsScalar}
use solidc.Unicode.Count.{utf8_char_length-ucp_to_utf8}
use solidc.Unicode.Valid.{AreScalars, encode_all}
use solidc.Utf8String.Holds.{length-ucp_to_utf8_pos, AreScalars-append, encode_all-append}
use solidc.Utf8String.Change.{take-append, drop-append}
use solidc.Trim.{char_start, rtrim_to, utf8_rtrim, utf8_trim}
use solidc.Trim.Front.{drop_while, is_utf8-encoding, utf8_ltrim_lem}
use solidc.Trim.Shape.{Encoding, encoding, char_start_lem}

encode_all-reverse :
    (z : ℕ) (rs : List ℕ) → encode_all (reverse (z ∷ rs)) ≡ encode_all (reverse rs) ++ ucp_to_utf8 z
encode_all-reverse z rs =
    ap encode_all (reverse-cons z rs)
    ∙ encode_all-append (reverse rs) (z ∷ [])
    ∙ ap (λ u. encode_all (reverse rs) ++ u) (append-nil (ucp_to_utf8 z))

AreScalars-reverse : (rs : List ℕ) → AreScalars rs → AreScalars (reverse rs)
AreScalars-reverse [] h = tt
AreScalars-reverse (z ∷ rs) h =
    rw (reverse-cons z rs)
      (AreScalars-append (reverse rs) (z ∷ []) (AreScalars-reverse rs h.2) (h.0, h.1, tt))

module _ (is : ℕ → Bool) where
  -- One round of the loop, at the end of the encoding of `z`.
  round :
      (fuel z : ℕ) (pre rest str : List ℕ)
      → IsScalar z
      → str ≡ pre ++ (ucp_to_utf8 z ++ rest)
      → rtrim_to is (suc fuel) (length (pre ++ ucp_to_utf8 z)) str
        ≡ (if is z then rtrim_to is fuel (length pre) str else some (length (pre ++ ucp_to_utf8 z)))
  unfolding rtrim_to
  round fuel z pre rest str sc e =
      rw
        (
          start,
          at_start,
          len,
          lt→ltb 0 (length (ucp_to_utf8 z)) nonempty,
          lt→ltb 0 (length (pre ++ ucp_to_utf8 z))
              (omega (arith, bytes, length-append pre (ucp_to_utf8 z))),
          is_utf8-encoding is z rest sc,
          whole,
        )
        refl
    where
      c : Encoding z
      c = encoding z sc

      bytes : length (ucp_to_utf8 z) ≡ suc (length c.tail)
      bytes = ap length c.bytes_eq

      nonempty : 0 < length (ucp_to_utf8 z)
      nonempty = omega (arith, bytes)

      spelled : str ≡ pre ++ (c.lead ∷ (c.tail ++ rest))
      spelled = e ∙ ap (λ u. pre ++ (u ++ rest)) c.bytes_eq

      last : length (pre ++ ucp_to_utf8 z) - 1 ≡ length pre + length c.tail
      last = omega (arith, bytes, length-append pre (ucp_to_utf8 z))

      start : char_start (length (pre ++ ucp_to_utf8 z) - 1) str ≡ length pre
      start =
          ap (λ n. char_start n str) last
          ∙ ap (λ u. char_start (length pre + length c.tail) u) spelled
          ∙ char_start_lem c.lead c.tail rest c.lead_eq c.tail_eq pre (length c.tail) (omega arith)

      at_start : drop (length pre) str ≡ ucp_to_utf8 z ++ rest
      at_start = ap (λ u. drop (length pre) u) e ∙ drop-append pre (ucp_to_utf8 z ++ rest)

      len : utf8_char_length (some (ucp_to_utf8 z ++ rest)) ≡ length (ucp_to_utf8 z)
      len = utf8_char_length-ucp_to_utf8 z rest (omega arith)

      whole : (length pre + length (ucp_to_utf8 z) == length (pre ++ ucp_to_utf8 z)) ≡ true
      whole =
          ap (λ n. n == length (pre ++ ucp_to_utf8 z)) (sym (length-append pre (ucp_to_utf8 z)))
          ∙ ==_refl (length (pre ++ ucp_to_utf8 z))

  rtrim_to_lem :
      (fuel : ℕ) (rs rest str : List ℕ)
      → AreScalars rs
      → str ≡ encode_all (reverse rs) ++ rest
      → length (encode_all (reverse rs)) < fuel
      → rtrim_to is fuel (length (encode_all (reverse rs))) str
        ≡ some (length (encode_all (reverse (drop_while is rs))))
  unfolding rtrim_to
  rtrim_to_lem zero rs rest str h e k = absurd (omega arith)
  rtrim_to_lem (suc fuel) [] rest str h e k = refl
  rtrim_to_lem (suc fuel) (z ∷ rs) rest str h e k =
      let pre = encode_all (reverse rs) in
      let eq = encode_all-reverse z rs in
      let at_end = e ∙ ap (λ u. u ++ rest) eq ∙ append_assoc pre (ucp_to_utf8 z) rest in
      let shorter : length pre < fuel =
        omega
          (arith, ap length eq, length-append pre (ucp_to_utf8 z), length-ucp_to_utf8_pos z h.0) in
      let step =
        ap (λ u. rtrim_to is (suc fuel) (length u) str) eq ∙ round fuel z pre rest str h.0 at_end in
      let rec = rtrim_to_lem fuel rs (ucp_to_utf8 z ++ rest) str h.2 at_end shorter in
      elim (Bool-cases (is z)) [
        | inl gone ↦ step ∙ rw gone rec
        | inr kept ↦ step ∙ rw (kept) (ap (λ u. some (length u)) (sym eq))
      ]

  -- what is left when the last characters of the class are gone
  abbrev pub drop_last_while : List ℕ → List ℕ
  drop_last_while cps = reverse (drop_while is (reverse cps))

  what_is_cut :
      (rs : List ℕ)
      → (rest : List ℕ) × (encode_all (reverse rs)
          ≡ encode_all (reverse (drop_while is rs)) ++ rest)
  what_is_cut [] = ([], refl)
  what_is_cut (z ∷ rs) = elim (Bool-cases (is z)) [
    | inl gone ↦
        let (rest, e) = what_is_cut rs in
        (
          rest ++ ucp_to_utf8 z,
          rw gone (
              encode_all-reverse z rs
              ∙ ap (λ u. u ++ ucp_to_utf8 z) e
              ∙ append_assoc (encode_all (reverse (drop_while is rs))) rest (ucp_to_utf8 z)),
        )
    | inr kept ↦ ([], rw kept (sym (append-nil (encode_all (reverse (z ∷ rs))))))
  ]

  cut :
      (rs : List ℕ)
      → take (length (encode_all (reverse (drop_while is rs)))) (encode_all (reverse rs))
        ≡ encode_all (reverse (drop_while is rs))
  cut rs =
      let (rest, e) = what_is_cut rs in
      ap (λ u. take (length (encode_all (reverse (drop_while is rs)))) u) e
      ∙ take-append (encode_all (reverse (drop_while is rs))) rest

  rtrim-reverse :
      (rs : List ℕ)
      → AreScalars rs
      → utf8_rtrim is (some (encode_all (reverse rs)))
        ≡ some (some (encode_all (reverse (drop_while is rs))))
  unfolding utf8_rtrim
  rtrim-reverse rs h =
      let str = encode_all (reverse rs) in
      rw
        (
          utf8_rtrim,
          rtrim_to_lem (suc (length str)) rs [] str h (sym (append-nil str)) (omega arith),
          cut rs,
        )
        refl

  AreScalars-drop_while : (cps : List ℕ) → AreScalars cps → AreScalars (drop_while is cps)
  AreScalars-drop_while [] h = tt
  AreScalars-drop_while (cp ∷ cps) h = elim (Bool-cases (is cp)) [
    | inl gone ↦ rw gone (AreScalars-drop_while cps h.2)
    | inr kept ↦ rw kept h
  ]

  -- `utf8_rtrim` of the encodings of non-zero scalar values leaves the encodings of those up to the
  -- last that is not white space; its loops end.
  pub utf8_rtrim_lem :
      (cps : List ℕ)
      → AreScalars cps
      → utf8_rtrim is (some (encode_all cps)) ≡ some (some (encode_all (drop_last_while cps)))
  utf8_rtrim_lem cps h =
      ap (λ c. utf8_rtrim is (some (encode_all c))) (sym (reverse-reverse cps))
      ∙ rtrim-reverse (reverse cps) (AreScalars-reverse cps h)

  -- `utf8_trim` of the encodings of non-zero scalar values leaves the encodings of those from the
  -- first to the last that is not white space.
  pub utf8_trim_lem :
      (cps : List ℕ)
      → AreScalars cps
      → utf8_trim is (some (encode_all cps))
        ≡ some (some (encode_all (drop_last_while (drop_while is cps))))
  unfolding utf8_trim
  utf8_trim_lem cps h =
      rw (utf8_trim, utf8_ltrim_lem is cps h)
        (utf8_rtrim_lem (drop_while is cps) (AreScalars-drop_while cps h))
