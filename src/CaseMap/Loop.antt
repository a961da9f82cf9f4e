-- ===== src/CaseMap/Loop.antt =====
-- The loop of utf8_tolower and utf8_toupper of src/unicode.c on well-formed text.
use mathlib.Core.Path.{subst}
use solidc.Base.{
  ◌+◌, length-append, take, drop, suc, ℕ, ◌-◌, ◌≤◌, ◌<◌, ◌≡◌, refl, sym, ap, ◌∙◌, ◌⊎◌, inl, inr,
  Bool, true, false, some, List, [], ◌∷◌, ◌++◌, map, append-nil, arith, ltb, ◌==◌, if◌then◌else◌,
  length, ge→ltb, ne→==, ltb→lt, ltb→ge, Bool-cases,
}
use solidc.Unicode.{
  ucp_to_utf8, utf8_to_codepoint, utf8_char_length, utf8_valid_byte_count, IsScalar,
}
use solidc.Unicode.Encode.{
  ucp_to_utf8_lem, utf8_to_codepoint-ucp_to_utf8, Range, one, two, three, four, range,
}
use solidc.Unicode.Count.{utf8_char_length-ucp_to_utf8}
use solidc.Unicode.Valid.{AreScalars, encode_all}
use solidc.Utf8String.Holds.{byte_count, take-length}
use solidc.Utf8String.Change.{take-append}
use solidc.CaseMap.{
  stays_inside, encoded, map_case, prepend, ascii_lower, ascii_upper, utf8_tolower, utf8_toupper,
}
use solidc.CaseMap.Ascii.{ascii_case_lem}

-- An ASCII character is one byte; any other begins with a byte above.
short : (cp : ℕ) → cp < 0x80 → ucp_to_utf8 cp ≡ cp ∷ []
short cp h = rw (ucp_to_utf8_lem cp) (ground arith)

long :
    (cp : ℕ)
    → IsScalar cp
    → 0x80 ≤ cp
    → (b : ℕ) × (t : List ℕ) × (ucp_to_utf8 cp ≡ b ∷ t) × (0x80 ≤ b)
long cp sc h = by_range (range cp (omega arith))
  where
    by_range : Range cp → (b : ℕ) × (t : List ℕ) × (ucp_to_utf8 cp ≡ b ∷ t) × (0x80 ≤ b)
    by_range (one k e) = absurd (omega arith)
    by_range (two lo hi e) = (_, _, ucp_to_utf8_lem cp ∙ e, omega arith)
    by_range (three lo hi e) = (_, _, ucp_to_utf8_lem cp ∙ e, omega arith)
    by_range (four lo hi e) = (_, _, ucp_to_utf8_lem cp ∙ e, omega arith)

utf8_valid_byte_count-one :
    (cp : ℕ)
    → IsScalar cp
    → 0 < cp
    → utf8_valid_byte_count (some (ucp_to_utf8 cp)) ≡ length (ucp_to_utf8 cp)
utf8_valid_byte_count-one cp sc pos =
    ap (λ u. utf8_valid_byte_count (some u)) (sym (append-nil (ucp_to_utf8 cp)))
    ∙ byte_count (cp ∷ []) (sc, pos, tt)
    ∙ ap length (append-nil (ucp_to_utf8 cp))

encoded-pos : (cp : ℕ) → 0 < cp → encoded cp ≡ ucp_to_utf8 cp
unfolding encoded
encoded-pos cp pos = rw (ne→== cp 0 (omega arith)) refl

module _ (ascii : ℕ → ℕ) (changes : ℕ → Bool) (to : ℕ → ℕ) where
  -- what becomes of a character
  abbrev pub changed : ℕ → ℕ
  changed cp = if ltb cp 0x80 then ascii cp else if changes cp then to cp else cp

  skip_over :
      (room : ℕ) (t s : List ℕ)
      → map_case ascii changes to (length t) room (t ++ s) ≡ map_case ascii changes to 0 room s
  unfolding map_case
  skip_over room [] s = refl
  skip_over room (b ∷ t) s = skip_over room t s

  module _ (cp b room : ℕ) (t s : List ℕ) (e : ucp_to_utf8 cp ≡ b ∷ t) (large : 0x80 ≤ b)
      (big : 0x80 ≤ cp) (sc : IsScalar cp) where
    decoded : utf8_to_codepoint (some (b ∷ t ++ s)) ≡ cp
    decoded =
        sym (ap (λ u. utf8_to_codepoint (some (u ++ s))) e) ∙ utf8_to_codepoint-ucp_to_utf8 cp s sc

    len : utf8_char_length (some (b ∷ t ++ s)) ≡ length (b ∷ t)
    len =
        sym (ap (λ u. utf8_char_length (some (u ++ s))) e)
        ∙ utf8_char_length-ucp_to_utf8 cp s (omega arith)
        ∙ ap length e

    less : length (b ∷ t) - 1 ≡ length t
    less = omega arith

    nonzero : (length (b ∷ t) == 0) ≡ false
    nonzero = ne→== (length (b ∷ t)) 0 (omega arith)

    room_left :
        length (ucp_to_utf8 (to cp)) + length s < room
        → stays_inside
            (length (ucp_to_utf8 (to cp)))
            (length (b ∷ t))
            (length (b ∷ t ++ s) - length (b ∷ t))
            room
          ≡ true
    unfolding stays_inside
    room_left fits = ground (arith, length-append (b ∷ t) s, fits)

    round_kept :
        changes cp ≡ false
        → map_case ascii changes to 0 room (b ∷ t ++ s)
          ≡ prepend
              (ucp_to_utf8 cp)
              (map_case ascii changes to 0 (room - length (ucp_to_utf8 cp)) s)
    unfolding map_case
    round_kept stays =
        rw
          (
            ge→ltb b 0x80 large,
            decoded,
            len,
            nonzero,
            stays,
            ap (λ k. map_case ascii changes to k (room - length (b ∷ t)) (t ++ s)) less,
            skip_over (room - length (b ∷ t)) t s,
            e,
            take-append (b ∷ t) s,
          )
          refl

    round_changed :
        changes cp ≡ true
        → IsScalar (to cp)
        → 0 < to cp
        → length (ucp_to_utf8 (to cp)) + length s < room
        → map_case ascii changes to 0 room (b ∷ t ++ s)
          ≡ prepend
              (ucp_to_utf8 (to cp))
              (map_case ascii changes to 0 (room - length (ucp_to_utf8 (to cp))) s)
    unfolding map_case
    round_changed turns sc' pos fits =
        rw
          (
            ge→ltb b 0x80 large,
            decoded,
            len,
            nonzero,
            turns,
            encoded-pos (to cp) pos,
            utf8_valid_byte_count-one (to cp) sc' pos,
            room_left fits,
            ap (λ k. map_case ascii changes to k (room - length (ucp_to_utf8 (to cp))) (t ++ s))
                less,
            skip_over (room - length (ucp_to_utf8 (to cp))) t s,
            take-length (ucp_to_utf8 (to cp)),
          )
          refl

  -- One round of the loop, at the encoding of a character.
  round :
      (cp room : ℕ) (s : List ℕ)
      → IsScalar cp
      → ascii cp < 0x80 ⊎ 0x80 ≤ cp
      → IsScalar (to cp) × (0 < to cp) ⊎ changes cp ≡ false
      → length (ucp_to_utf8 (changed cp)) + length s < room
      → map_case ascii changes to 0 room (ucp_to_utf8 cp ++ s)
        ≡ prepend
            (ucp_to_utf8 (changed cp))
            (map_case ascii changes to 0 (room - length (ucp_to_utf8 (changed cp))) s)
  unfolding map_case
  round cp room s sc low other fits = elim (Bool-cases (ltb cp 0x80)) [
    | inl small ↦
        rw
          (
            short cp (ltb→lt cp 0x80 small),
            small,
            short (ascii cp)
                (elim low [ inl l ↦ l | inr g ↦ absurd (omega (arith, ltb→lt cp 0x80 small)) ]),
          )
          refl
    | inr big ↦
        let (b, t, e, large) = long cp sc (ltb→ge cp 0x80 big) in
        let start : map_case ascii changes to 0 room (ucp_to_utf8 cp ++ s)
            ≡ map_case ascii changes to 0 room (b ∷ t ++ s) =
          ap (λ u. map_case ascii changes to 0 room (u ++ s)) e in
        elim (Bool-cases (changes cp)) [
          | inr stays ↦
              start
              ∙ round_kept cp b room t s e large (ltb→ge cp 0x80 big) sc stays
              ∙ rw (big, stays) refl
          | inl turns ↦ elim other [
            | inr stays ↦ cc
            | inl (sc', pos) ↦
                let same : changed cp ≡ to cp = rw (big, turns) refl in
                start
                ∙ round_changed cp b room t s e large (ltb→ge cp 0x80 big) sc turns sc' pos
                    (subst (λ c. length (ucp_to_utf8 c) + length s < room) same fits)
                ∙ rw (big, turns) refl
          ]
        ]
  ]

  -- The room is enough in each round, for what is changed already and what is still to come.
  abbrev pub HasRoom : ℕ → List ℕ → Type 0
  HasRoom room cps =
      (k : ℕ)
      → length (encode_all (map changed (take k cps))) + length (encode_all (drop k cps)) < room

  HasRoom-tail :
      (room cp : ℕ) (cps : List ℕ)
      → HasRoom room (cp ∷ cps)
      → HasRoom (room - length (ucp_to_utf8 (changed cp))) cps
  HasRoom-tail room cp cps h k = omega (
    arith,
    h (suc k),
    length-append (ucp_to_utf8 (changed cp)) (encode_all (map changed (take k cps))),
  )

  map_case_lem :
      (cps : List ℕ) (room : ℕ)
      → AreScalars cps
      → ((cp : ℕ) → cp < 0x80 → ascii cp < 0x80)
      → ((cp : ℕ) → IsScalar cp → changes cp ≡ true → IsScalar (to cp) × (0 < to cp))
      → HasRoom room cps
      → map_case ascii changes to 0 room (encode_all cps) ≡ some (encode_all (map changed cps))
  unfolding map_case prepend
  map_case_lem [] room h low maps fits = refl
  map_case_lem (cp ∷ cps) room h low maps fits =
      round cp room (encode_all cps) h.0 small turned
        (omega (arith, fits 1, length-append (ucp_to_utf8 (changed cp)) []))
      ∙ ap (λ r. prepend (ucp_to_utf8 (changed cp)) r)
          (map_case_lem cps _ h.2 low maps (HasRoom-tail room cp cps fits))
    where
      small : ascii cp < 0x80 ⊎ 0x80 ≤ cp
      small = elim (Bool-cases (ltb cp 0x80)) [
        | inl below ↦ inl (low cp (ltb→lt cp 0x80 below))
        | inr above ↦ inr (ltb→ge cp 0x80 above)
      ]

      turned : IsScalar (to cp) × (0 < to cp) ⊎ (changes cp ≡ false)
      turned = elim (Bool-cases (changes cp)) [
        | inl turns ↦ inl (maps cp h.0 turns)
        | inr stays ↦ inr stays
      ]

-- Where towlower gives a non-zero scalar value for each scalar value that iswupper accepts,
-- utf8_tolower of the encodings of non-zero scalar values leaves the encodings of these values, each
-- changed: an ASCII byte as `ascii_lower` does, another that iswupper accepts by towlower. After
-- each character that is changed, the buffer has room for the text with its terminator.
pub utf8_tolower_lem :
    (iswupper : ℕ → Bool) (towlower : ℕ → ℕ)
    → ((cp : ℕ) → IsScalar cp → iswupper cp ≡ true → IsScalar (towlower cp) × (0 < towlower cp))
    → (cps : List ℕ) (size : ℕ) → AreScalars cps
    → HasRoom ascii_lower iswupper towlower size cps
    → utf8_tolower iswupper towlower size (some (encode_all cps))
      ≡ some (some (encode_all (map (changed ascii_lower iswupper towlower) cps)))
unfolding utf8_tolower
utf8_tolower_lem iswupper towlower maps cps size h fits =
    rw
      (
        utf8_tolower,
        map_case_lem ascii_lower iswupper towlower cps size h
            (λ b k. ground (arith, ascii_case_lem b k)) maps fits,
      )
      refl

-- Where towupper gives a non-zero scalar value for each scalar value that iswlower accepts,
-- utf8_toupper of the encodings of non-zero scalar values leaves the encodings of these values, each
-- changed: an ASCII byte as `ascii_upper` does, another that iswlower accepts by towupper. After
-- each character that is changed, the buffer has room for the text with its terminator.
pub utf8_toupper_lem :
    (iswlower : ℕ → Bool) (towupper : ℕ → ℕ)
    → ((cp : ℕ) → IsScalar cp → iswlower cp ≡ true → IsScalar (towupper cp) × (0 < towupper cp))
    → (cps : List ℕ) (size : ℕ) → AreScalars cps
    → HasRoom ascii_upper iswlower towupper size cps
    → utf8_toupper iswlower towupper size (some (encode_all cps))
      ≡ some (some (encode_all (map (changed ascii_upper iswlower towupper) cps)))
unfolding utf8_toupper
utf8_toupper_lem iswlower towupper maps cps size h fits =
    rw
      (
        utf8_toupper,
        map_case_lem ascii_upper iswlower towupper cps size h
            (λ b k. ground (arith, ascii_case_lem b k)) maps fits,
      )
      refl
