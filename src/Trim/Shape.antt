-- ===== src/Trim/Shape.antt =====
-- Where the characters of well-formed text begin, for utf8_rtrim of src/unicode.c.
use solidc.Base.{
  ℕ, zero, suc, ◌+◌, ◌/◌, ◌%◌, ◌≤◌, ◌<◌, ◌≡◌, refl, sym, ap, ◌∙◌, inl, inr, true, false, List, [],
  ◌∷◌, ◌++◌, arith, get_or, length,
}
use solidc.Unicode.{ucp_to_utf8, continues, IsScalar}
use solidc.Unicode.Encode.{ucp_to_utf8_lem, Range, one, two, three, four, range}
use solidc.Unicode.Count.{leading, continuing}
use solidc.Trim.{char_start}

abbrev pub AreContinuing : List ℕ → Type 0
AreContinuing [] = Unit
AreContinuing (y ∷ t) = (continues y ≡ true) × AreContinuing t

-- A leading byte and the continuation bytes behind it.
pub record Encoding (cp : ℕ) : Type 0 where
  pub lead : ℕ
  pub tail : List ℕ
  pub bytes_eq : ucp_to_utf8 cp ≡ lead ∷ tail
  pub lead_eq : continues lead ≡ false
  pub tail_eq : AreContinuing tail

pub encoding : (cp : ℕ) → IsScalar cp → Encoding cp
encoding cp sc = by_range (range cp (omega arith))
  where
    by_range : Range cp → Encoding cp
    by_range (one h e) = record {
      lead = cp;
      tail = [];
      bytes_eq = ucp_to_utf8_lem cp ∙ e;
      lead_eq = leading cp (omega arith) (inl h);
      tail_eq = tt;
    }
    by_range (two lo hi e) = record {
      lead = 0xC0 + cp / 64;
      tail = (0x80 + cp % 64) ∷ [];
      bytes_eq = ucp_to_utf8_lem cp ∙ e;
      lead_eq = leading (0xC0 + cp / 64) (omega arith) (inr (omega arith));
      tail_eq = (continuing (cp % 64) (omega arith), tt);
    }
    by_range (three lo hi e) = record {
      lead = 0xE0 + cp / 4096;
      tail = (0x80 + cp / 64 % 64) ∷ (0x80 + cp % 64) ∷ [];
      bytes_eq = ucp_to_utf8_lem cp ∙ e;
      lead_eq = leading (0xE0 + cp / 4096) (omega arith) (inr (omega arith));
      tail_eq = (continuing (cp / 64 % 64) (omega arith), (continuing (cp % 64) (omega arith), tt));
    }
    by_range (four lo hi e) = record {
      lead = 0xF0 + cp / 262144;
      tail = (0x80 + cp / 4096 % 64) ∷ (0x80 + cp / 64 % 64) ∷ (0x80 + cp % 64) ∷ [];
      bytes_eq = ucp_to_utf8_lem cp ∙ e;
      lead_eq = leading (0xF0 + cp / 262144) (omega arith) (inr (omega arith));
      tail_eq = (
        continuing (cp / 4096 % 64) (omega arith),
        (continuing (cp / 64 % 64) (omega arith), (continuing (cp % 64) (omega arith), tt)),
      );
    }

get_or-append : (xs ys : List ℕ) (n : ℕ) → get_or (xs ++ ys) (length xs + n) 0 ≡ get_or ys n 0
get_or-append [] ys n = ap (λ k. get_or ys k 0) (omega arith)
get_or-append (x ∷ xs) ys n = rw (suc_sum (length xs) n) (get_or-append xs ys n)
  where
    suc_sum : (a b : ℕ) → suc a + b ≡ suc (a + b)
    suc_sum a b = omega arith

get_or-continuing :
    (t rest : List ℕ) (j : ℕ)
    → AreContinuing t
    → j < length t
    → continues (get_or (t ++ rest) j 0) ≡ true
get_or-continuing [] rest j h k = absurd (omega arith)
get_or-continuing (y ∷ t) rest zero h k = h.0
get_or-continuing (y ∷ t) rest (suc j) h k = get_or-continuing t rest j h.1 (omega arith)

module _ (b : ℕ) (t rest : List ℕ) (lead_eq : continues b ≡ false) (h : AreContinuing t) where
  at_lead : (pre : List ℕ) → char_start (length pre) (pre ++ (b ∷ (t ++ rest))) ≡ length pre
  unfolding char_start
  at_lead [] = refl
  at_lead (x ∷ pre) =
      rw
        (
          ap continues (
              ap (λ k. get_or (x ∷ pre ++ (b ∷ (t ++ rest))) k 0) (same (length (x ∷ pre)))
              ∙ get_or-append (x ∷ pre) (b ∷ (t ++ rest)) 0),
          lead_eq,
        )
        refl
    where
      same : (n : ℕ) → n ≡ n + 0
      same n = omega arith

  -- From a byte of a character the walk goes back to the first.
  pub char_start_lem :
      (pre : List ℕ) (j : ℕ)
      → j ≤ length t
      → char_start (length pre + j) (pre ++ (b ∷ (t ++ rest))) ≡ length pre
  unfolding char_start
  char_start_lem pre zero k =
      ap (λ n. char_start n (pre ++ (b ∷ (t ++ rest)))) (omega arith) ∙ at_lead pre
  char_start_lem pre (suc j) k =
      rw (next (length pre) j, inside) (char_start_lem pre j (omega arith))
    where
      next : (a c : ℕ) → a + suc c ≡ suc (a + c)
      next a c = omega arith

      inside : continues (get_or (pre ++ (b ∷ (t ++ rest))) (suc (length pre + j)) 0) ≡ true
      inside =
          ap (λ n. continues (get_or (pre ++ (b ∷ (t ++ rest))) n 0)) (sym (next (length pre) j))
          ∙ ap continues (get_or-append pre (b ∷ (t ++ rest)) (suc j))
          ∙ get_or-continuing t rest j h (omega arith)
