-- ===== src/Csv/Writer/Rows.antt =====
-- csvwriter_write_row of src/csvparser.c, on every branch that writes fields.
use solidc.Base.{
  ℕ, zero, suc, ◌-◌, ◌≤◌, ◌<◌, ◌≡◌, refl, sym, ap, ◌∙◌, inl, inr, Bool, true, false, not, ◌&&◌,
  Option, some, List, [], ◌∷◌, ◌++◌, append_assoc, append-nil, leb, if◌then◌else◌, length, take,
  arith, Bool-cases, leb→le, leb→gt, lt→ltb, ge→ltb, dec_lt, dec_lt,
}
use solidc.Csv.{Bytes}
use solidc.Csv.Writer.{
  Stream, Io, ◌and_then◌, fputc, fputs, fflush, CsvWriter, write_fields, flush_and_exit,
  csvwriter_write_row,
}
use solidc.Csv.Writer.Text.{and_then-ap, fputs-append, fputs-fputc, row_text, write_fields-row_text}

abbrev pub after : Bytes → Stream → Stream
after text s = record s { written = s.written ++ text; left = s.left - length text }

abbrev pub cut : Bytes → Stream → Stream
cut text s = record s { written = s.written ++ take s.left text; left = 0; error = true }

fputc-fits :
    (c : ℕ) (s : Stream)
    → 0 < s.left
    → fputc c s ≡ (true, record s { written = s.written ++ c ∷ []; left = s.left - 1 })
unfolding fputc
fputc-fits c s h = rw (lt→ltb 0 s.left h) refl

fputc-cut : (c : ℕ) (s : Stream) → s.left ≤ 0 → fputc c s ≡ (false, record s { error = true })
unfolding fputc
fputc-cut c s h = rw (ge→ltb 0 s.left h) refl

moved :
    (s : Stream) (w w' : Bytes) (l l' : ℕ) (e : Bool)
    → w ≡ w'
    → l ≡ l'
    → record s { written = w; left = l; error = e }
      ≡ record s { written = w'; left = l'; error = e }
moved s w w' l l' e p q =
    ap (λ x. record s { written = x; left = l; error = e }) p
    ∙ ap (λ x. record s { written = w'; left = x; error = e }) q

fputs-fits :
    (text : Bytes) (s : Stream) → length text ≤ s.left → fputs text s ≡ (true, after text s)
unfolding fputs
fputs-fits [] s h =
    ap (λ t. (true, t)) (moved s _ _ _ _ s.error (sym (append-nil s.written)) (omega arith))
fputs-fits (c ∷ text) s h =
    ap (λ io. io and_then fputs text) (fputc-fits c s (omega arith))
    ∙ fputs-fits text (record s { written = s.written ++ c ∷ []; left = s.left - 1 }) (omega arith)
    ∙ ap (λ t. (true, t))
        (moved s _ _ _ _ s.error (append_assoc s.written (c ∷ []) text) (omega arith))

take_cons : (n c : ℕ) (text : Bytes) → 0 < n → c ∷ take (n - 1) text ≡ take n (c ∷ text)
take_cons zero c text h = elim h [ ]
take_cons (suc n) c text h = ap (λ k. c ∷ take k text) (omega arith)

take_none : (n : ℕ) (text : Bytes) → n ≤ 0 → take n text ≡ []
take_none n text h = let empty : n ≡ 0 = omega arith in ap (λ k. take k text) empty

fputs-cut : (text : Bytes) (s : Stream) → s.left < length text → fputs text s ≡ (false, cut text s)
unfolding fputs
fputs-cut [] s h = absurd (omega arith)
fputs-cut (c ∷ text) s h = elim (dec_lt 0 s.left) [
  | yes room ↦
      ap (λ io. io and_then fputs text) (fputc-fits c s room)
      ∙ fputs-cut text (record s { written = s.written ++ c ∷ []; left = s.left - 1 }) (omega arith)
      ∙ ap (λ t. (false, t))
          (moved s _ _ _ _ true
            (append_assoc s.written (c ∷ []) (take (s.left - 1) text)
              ∙ ap (λ t. s.written ++ t) (take_cons s.left c text room))
            refl)
  | no full ↦
      ap (λ io. io and_then fputs text) (fputc-cut c s (omega (arith, full)))
      ∙ ap (λ t. (false, t))
          (moved s _ _ _ _ true
            (sym (append-nil s.written)
              ∙ ap (λ t. s.written ++ t) (sym (take_none s.left (c ∷ text) (omega (arith, full)))))
            (omega (arith, full)))
]

-- The flush, if the writer asks for one.
abbrev pub flushed : CsvWriter → Stream → Io
flushed w s = if w.flush && not s.syncs then (false, record s { error = true }) else (true, s)

flush_and_exit-flushed :
    (w : CsvWriter) (s : Stream) → s.error ≡ false → flush_and_exit w s ≡ flushed w s
unfolding flush_and_exit fflush
flush_and_exit-flushed w s clean = elim (Bool-cases w.flush) [
  | inr quiet ↦ rw quiet (rw clean refl)
  | inl asked ↦ elim (Bool-cases s.syncs) [
    | inl takes ↦ rw asked (rw takes (rw clean refl))
    | inr fails ↦ rw asked (rw fails refl)
  ]
]

take-length : (xs : List (Option Bytes)) → take (length xs) xs ≡ xs
take-length [] = refl
take-length (x ∷ xs) = ap (λ t. x ∷ t) (take-length xs)

module _ (w : CsvWriter) (field : Option Bytes) (fields : List (Option Bytes))
    (clean : w.stream.error ≡ false) where
  abbrev pub line : Bytes
  line = row_text w (field ∷ fields) ++ w.newline ∷ []

  abbrev all_written : Io
  all_written = write_fields w 0 (field ∷ fields) w.stream and_then fputc w.newline

  all_written-fputs : all_written ≡ fputs line w.stream
  all_written-fputs =
      ap (λ io. io and_then fputc w.newline) (write_fields-row_text w field fields w.stream)
      ∙ and_then-ap (fputs _ w.stream) _ _ (fputs-fputc w.newline)
      ∙ sym (fputs-append (row_text w (field ∷ fields)) (w.newline ∷ []) w.stream)

  abbrev finish : List (Option Bytes) → Io
  finish more =
      write_fields w 0 (field ∷ more) w.stream and_then fputc w.newline and_then flush_and_exit w

  abbrev reply : Io → Option (Bool × Option Stream)
  reply io = some (io.0, some io.1)

  outcome : finish fields ≡ (
      if leb (length line) w.stream.left
      then flushed w (after line w.stream)
      else (false, cut line w.stream))
  outcome = elim (Bool-cases (leb (length line) w.stream.left)) [
    | inl fits ↦
        ap (λ io. io and_then flush_and_exit w)
          (all_written-fputs ∙ fputs-fits line w.stream (leb→le (length line) w.stream.left fits))
        ∙ flush_and_exit-flushed w (after line w.stream) clean
        ∙ rw fits refl
    | inr tight ↦
        ap (λ io. io and_then flush_and_exit w)
          (all_written-fputs ∙ fputs-cut line w.stream (leb→gt (length line) w.stream.left tight))
        ∙ rw tight refl
  ]

  -- csvwriter_write_row of one field or more, on a stream without an error, writes the fields with
  -- delimiters between them and the newline behind them, quoted where the rules ask for it, and flushes
  -- if it is to; or, if the stream takes fewer bytes, it returns false and has written as much of this
  -- as fits.
  pub csvwriter_write_row_lem :
      csvwriter_write_row (some w) (some (field ∷ fields)) (suc (length fields)) ≡ (
        let (ok, s) =
          if leb (length line) w.stream.left
          then flushed w (after line w.stream)
          else (false, cut line w.stream) in
        some (ok, some s))
  unfolding csvwriter_write_row
  csvwriter_write_row_lem =
      ap
        (λ e.
          if e then some (false, some w.stream) else reply (finish (take (length fields) fields)))
        clean
      ∙ ap reply (ap finish (take-length fields) ∙ outcome)

  pub csvwriter_write_row-fits :
      length line ≤ w.stream.left
      → (w.flush && not w.stream.syncs) ≡ false
      → csvwriter_write_row (some w) (some (field ∷ fields)) (suc (length fields))
        ≡ some (true, some (after line w.stream))
  csvwriter_write_row-fits fits flushes = csvwriter_write_row_lem ∙ ap reply chosen
    where
      chosen :
          (if leb (length line) w.stream.left
            then flushed w (after line w.stream)
            else (false, cut line w.stream))
          ≡ (true, after line w.stream)
      chosen = elim (Bool-cases (leb (length line) w.stream.left)) [
        | inl room ↦ rw room (rw flushes refl)
        | inr tight ↦ absurd (omega (arith, leb→gt (length line) w.stream.left tight, fits))
      ]
