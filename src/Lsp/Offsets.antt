-- ===== src/Lsp/Offsets.antt =====
-- From a position to its offset and back, and the cuts of a content change.
use pure_analyzer.Shared.{
  ℕ, zero, suc, ◌+◌, ◌<◌, true, none, some, [], ◌∷◌, ◌++◌, ◌≡◌, refl, sym, ap, ◌∙◌, arith, ◌==◌,
  ltb, Bool-cases, inl, inr, append_assoc,
}
use pure_analyzer.Lsp.Chars.{
  Chars, len_utf8, len_utf16, byte_len, split_at, newlines, has_newline, last_line, first_line,
  find_newline,
}
use pure_analyzer.Lsp.Document.{
  ProtocolPosition, u32_bound, to_u32, utf16_from, utf16_length, position_of, utf16_position,
  line_start, line_bounds, offset_from, byte_offset,
}
use pure_analyzer.Lsp.Lines.{
  newline_utf8, split_at-append, newlines-append, byte_len-append, has_newline-newlines,
  last_line-clear, found, find_newline-first, first_line-prefix, newlines-first_line,
}
use pure_analyzer.Lsp.Positions.{units, and_then-some}

has_newline-after : (l m : Chars) → has_newline (l ++ b'\n' ∷ m) ≡ true
has_newline-after [] m = refl
has_newline-after (c ∷ l) m = ground (arith, has_newline-after l m)

last_line-after : (l m : Chars) → last_line (l ++ b'\n' ∷ m) ≡ last_line m
last_line-after [] m = elim (Bool-cases (has_newline m)) [
  | inl e ↦ rw e refl
  | inr e ↦ rw e (sym (last_line-clear m (ground (arith, has_newline-newlines m))))
]
last_line-after (c ∷ l) m = rw (has_newline-after l m) (last_line-after l m)

-- A front that ends a line: whole lines, `n` of them.
abbrev WholeLines : ℕ → Chars → Type 0
WholeLines n pre = (newlines pre ≡ n) × ((l : Chars) → newlines l ≡ 0 → last_line (pre ++ l) ≡ l)

line_start-whole :
    (n start at : ℕ) (t rest : Chars)
    → line_start n start t ≡ found at rest
    → (pre : Chars) × (pre ++ rest ≡ t) × (start + byte_len pre ≡ at) × WholeLines n pre
unfolding line_start
line_start-whole zero start at t rest h =
    let same : start ≡ at = cc in
    let all : t ≡ rest = cc in
    ([], sym all, omega (arith, same), (refl, λ l q. last_line-clear l q))
line_start-whole (suc n) start at t rest h =
    let (f, e, k) = and_then-some (find_newline t) _ (at, rest) h in
    let (l, whole, long, clear) = find_newline-first t f.0 f.1 e in
    let (pre, later, total, lines) = line_start-whole n (start + f.0 + 1) at f.1 rest k in
    (
      l ++ b'\n' ∷ pre,
      append_assoc l (b'\n' ∷ pre) rest ∙ ap (λ u. l ++ b'\n' ∷ u) later ∙ whole,
      omega (arith, long, total, newline_utf8, byte_len-append l (b'\n' ∷ pre)),
      (
        newlines-append l (b'\n' ∷ pre) ∙ omega (arith, clear, lines.0),
        λ m q.
            ap last_line (append_assoc l (b'\n' ∷ pre) m)
            ∙ last_line-after l (pre ++ m)
            ∙ lines.1 m q,
      ),
    )

offset_from-front :
    (t : Chars) (wanted us offset o : ℕ)
    → offset_from wanted us offset t ≡ some o
    → (l : Chars) × (r : Chars) × (l ++ r ≡ t) × (offset + byte_len l ≡ o) × (wanted ≡ us + units l)
unfolding offset_from
offset_from-front [] wanted us offset o h = elim (Bool-cases (wanted == us)) [
  | inl e ↦
      let same : some offset ≡ some o = rw e at h in
      let here : offset ≡ o = cc in ([], [], refl, omega (arith, here), ground arith)
  | inr e ↦ let no : none ≡ some o = rw e at h in absurd (cc)
]
offset_from-front (c ∷ t) wanted us offset o h = elim (Bool-cases (wanted == us)) [
  | inl e ↦
      let same : some offset ≡ some o = rw e at h in
      let here : offset ≡ o = cc in ([], c ∷ t, refl, omega (arith, here), ground arith)
  | inr e ↦
      let (next, f, k) = and_then-some (to_u32 (us + len_utf16 c)) _ o (rw e at h) in
      elim (Bool-cases (ltb wanted next)) [
        | inl q ↦ let no : none ≡ some o = rw q at k in absurd (cc)
        | inr q ↦
            let (l, r, whole, long, sum) =
              offset_from-front t wanted (us + len_utf16 c) (offset + len_utf8 c) o (rw q at k) in
            (c ∷ l, r, ap (λ u. c ∷ u) whole, omega (arith, long), omega (arith, sum))
      ]
]

-- An offset that `byte_offset` gives cuts the text in two, the front of which ends at the position.
pub byte_offset-front :
    (text : Chars) (p : ProtocolPosition) (o : ℕ)
    → byte_offset text p ≡ some o
    → (a : Chars) × (b : Chars) × (a ++ b ≡ text)
      × (byte_len a ≡ o)
      × (newlines a ≡ p.line)
      × (units (last_line a) ≡ p.character)
unfolding byte_offset line_bounds
byte_offset-front text p o h =
    let (bounds, e, k) = and_then-some (line_bounds text p.line) _ o h in
    let (s, f, g) = and_then-some (line_start p.line 0 text) _ bounds e in
    let (pre, whole, start, lines) = line_start-whole p.line 0 s.0 text s.1 f in
    let line : found s.0 (first_line s.1) ≡ found bounds.0 bounds.1 = g in
    let from : s.0 ≡ bounds.0 = cc in
    let inside : first_line s.1 ≡ bounds.1 = cc in
    let (l, r, cut, long, sum) = offset_from-front bounds.1 p.character 0 bounds.0 o k in
    let (more, rest) = first_line-prefix s.1 in
    let clear : newlines l + newlines r ≡ 0 =
      sym (newlines-append l r) ∙ ap newlines (cut ∙ sym inside) ∙ newlines-first_line s.1 in
    let none_in_l : newlines l ≡ 0 = omega (arith, clear) in
    (
      pre ++ l,
      r ++ more,
      append_assoc pre l (r ++ more)
          ∙ ap (λ u. pre ++ u)
              (sym (append_assoc l r more) ∙ ap (λ u. u ++ more) (cut ∙ sym inside) ∙ rest)
          ∙ whole,
      omega (arith, byte_len-append pre l, start, from, long),
      newlines-append pre l ∙ omega (arith, none_in_l, lines.0),
      ap units (lines.1 l none_in_l) ∙ omega (arith, sum),
    )

utf16_from-sum :
    (t : Chars) (from : ℕ) → from + units t < u32_bound → utf16_from from t ≡ some (from + units t)
unfolding utf16_from
utf16_from-sum [] from lt = let same : from ≡ from + 0 = omega arith in ap some same
utf16_from-sum (c ∷ t) from lt =
    let small : ltb (from + len_utf16 c) u32_bound ≡ true = ground (arith, lt) in
    let sum : from + len_utf16 c + units t ≡ from + (len_utf16 c + units t) = omega arith in
    rw small (utf16_from-sum t (from + len_utf16 c) (omega (arith, lt)) ∙ ap some sum)

position_of-front :
    (a : Chars) (p : ProtocolPosition)
    → newlines a ≡ p.line
    → units (last_line a) ≡ p.character
    → p.line < u32_bound
    → p.character < u32_bound
    → position_of a ≡ some p
unfolding utf16_length
position_of-front a p h k l c =
    let line : ltb (newlines a) u32_bound ≡ true = ground (arith, h, l) in
    let none_before : 0 + units (last_line a) ≡ units (last_line a) = omega arith in
    let character : utf16_from 0 (last_line a) ≡ some (units (last_line a)) =
      utf16_from-sum (last_line a) 0 (omega (arith, k, c)) ∙ ap some none_before in
    rw (line, character, h, k) refl

-- `utf16_position` takes the offset that `byte_offset` gives a position back to that position.
pub utf16_position-byte_offset :
    (text : Chars) (p : ProtocolPosition) (offset : ℕ)
    → p.line < u32_bound
    → p.character < u32_bound
    → byte_offset text p ≡ some offset
    → utf16_position text offset ≡ some p
unfolding utf16_position
utf16_position-byte_offset text p offset l c h =
    let (a, b, whole, long, line, character) = byte_offset-front text p offset h in
    let cut : split_at text offset ≡ some (a, b) =
      ap (λ t. split_at t offset) (sym whole)
      ∙ ap (split_at (a ++ b)) (sym long)
      ∙ split_at-append a b in
    rw cut (position_of-front a p line character l c)
