-- ===== src/Lsp/Positions.antt =====
-- From an offset to its position and back.
use pure_analyzer.Shared.{
  ℕ, suc, ◌+◌, ◌-◌, ◌<◌, ◌≤◌, true, false, Option, none, some, [], ◌∷◌, ◌++◌, ◌≡◌, refl, sym, ap,
  ◌∙◌, arith, ◌==◌, ltb, Bool-cases, inl, inr,
}
use pure_analyzer.Lsp.Chars.{
  Chars, len_utf8, len_utf16, byte_len, split_at, newlines, has_newline, last_line, first_line,
  find_newline,
}
use pure_analyzer.Lsp.Document.{
  ProtocolPosition, u32_bound, to_u32, and_then, utf16_from, utf16_length, position_of,
  utf16_position, line_start, line_bounds, offset_from, byte_offset,
}
use pure_analyzer.Lsp.Lines.{
  len_utf16-pos, newline_utf8, split_at-whole, has_newline-newlines, last_line-clear,
  first_line-append, found,
}

-- The UTF-16 units of a text, unbounded.
abbrev pub units : Chars → ℕ
units [] = 0
units (c ∷ t) = len_utf16 c + units t

pub to_u32-some : (n m : ℕ) → to_u32 n ≡ some m → (n ≡ m) × (n < u32_bound)
to_u32-some n m h = elim (Bool-cases (ltb n u32_bound)) [
  | inl e ↦ (same (rw e at h), ground arith)
  | inr e ↦ absurd (no (rw e at h))
]
  where
    same : some n ≡ some m → n ≡ m
    same q = cc

    no : none ≡ some m → ⊥
    no q = cc

pub and_then-some {ℓ κ} :
    {A : Type ℓ} {B : Type κ} (o : Option A) (k : A → Option B) (b : B)
    → and_then o k ≡ some b
    → (a : A) × (o ≡ some a) × (k a ≡ some b)
and_then-some none k b h = absurd (cc)
and_then-some (some a) k b h = (a, refl, h)

pub utf16_from-units :
    (t : Chars) (from n : ℕ)
    → from < u32_bound
    → utf16_from from t ≡ some n
    → (n ≡ from + units t) × (n < u32_bound)
unfolding utf16_from
utf16_from-units [] from n lt h = let same : from ≡ n = cc in (omega arith, omega (arith, lt))
utf16_from-units (c ∷ t) from n lt h =
    let (m, e, k) = and_then-some (to_u32 (from + len_utf16 c)) (λ m. utf16_from m t) n h in
    let (same, below) = to_u32-some (from + len_utf16 c) m e in
    let (sum, small) = utf16_from-units t m n (omega (arith, same, below)) k in
    (omega (arith, sum, same), small)

line_start-other :
    (line start c : ℕ) (t : Chars)
    → (c == b'\n') ≡ false
    → line_start (suc line) start (c ∷ t) ≡ line_start (suc line) (start + len_utf8 c) t
unfolding line_start find_newline
line_start-other line start c t e = by_rest (find_newline t) refl
  where
    by_rest :
        (r : Option (ℕ × Chars))
        → find_newline t ≡ r
        → line_start (suc line) start (c ∷ t) ≡ line_start (suc line) (start + len_utf8 c) t
    by_rest none q = rw (e, q) refl
    by_rest (some (k, u)) q =
        let sum : start + (len_utf8 c + k) + 1 ≡ start + len_utf8 c + k + 1 = omega arith in
        rw (e, q, sum) refl

line_start-newline :
    (line start : ℕ) (t : Chars)
    → line_start (suc line) start (b'\n' ∷ t) ≡ line_start line (start + 1) t
unfolding line_start find_newline
line_start-newline line start t = let sum : start + 0 + 1 ≡ start + 1 = omega arith in rw sum refl

-- Where the last line of a front starts.
abbrev Starts : Chars → Chars → ℕ → ℕ → Type 0
Starts a b start at =
    (line_start (newlines a) start (a ++ b) ≡ found at (last_line a ++ b))
    × (at + byte_len (last_line a) ≡ start + byte_len a)

Starts-newline :
    (c : ℕ) (a b : Chars) (start at : ℕ)
    → (c == b'\n') ≡ true
    → Starts a b (start + 1) at
    → Starts (c ∷ a) b start at
Starts-newline c a b start at e (h, k) =
    let same : c ≡ b'\n' = ground arith in
    let count : newlines (c ∷ a) ≡ suc (newlines a) = rw e refl in
    let last : last_line (c ∷ a) ≡ last_line a = elim (Bool-cases (has_newline a)) [
      | inl q ↦ rw q refl
      | inr q ↦ rw (q, e) (sym (last_line-clear a (ground (arith, has_newline-newlines a))))
    ] in
    let one : len_utf8 c ≡ 1 = ap len_utf8 same ∙ newline_utf8 in
    (
      ap (λ n. line_start n start (c ∷ (a ++ b))) count
          ∙ ap (λ x. line_start (suc (newlines a)) start (x ∷ (a ++ b))) same
          ∙ line_start-newline (newlines a) start (a ++ b)
          ∙ h
          ∙ ap (λ l. found at (l ++ b)) (sym last),
      ap (λ l. at + byte_len l) last ∙ omega (arith, k, one),
    )

Starts-other :
    (c : ℕ) (a b : Chars) (start at : ℕ)
    → (c == b'\n') ≡ false
    → has_newline a ≡ true
    → Starts a b (start + len_utf8 c) at
    → Starts (c ∷ a) b start at
Starts-other c a b start at e q (h, k) =
    let more : newlines a ≡ suc (newlines a - 1) = ground (arith, has_newline-newlines a) in
    let count : newlines (c ∷ a) ≡ suc (newlines a - 1) = rw e more in
    let last : last_line (c ∷ a) ≡ last_line a = rw q refl in
    (
      ap (λ n. line_start n start (c ∷ (a ++ b))) count
          ∙ line_start-other (newlines a - 1) start c (a ++ b) e
          ∙ ap (λ n. line_start n (start + len_utf8 c) (a ++ b)) (sym more)
          ∙ h
          ∙ ap (λ l. found at (l ++ b)) (sym last),
      ap (λ l. at + byte_len l) last ∙ omega (arith, k),
    )

Starts-here :
    (c : ℕ) (a b : Chars) (start : ℕ)
    → (c == b'\n') ≡ false
    → has_newline a ≡ false
    → Starts (c ∷ a) b start start
unfolding line_start
Starts-here c a b start e q =
    let count : newlines (c ∷ a) ≡ 0 = ground (arith, has_newline-newlines a) in
    let last : last_line (c ∷ a) ≡ c ∷ a = rw (q, e) refl in
    (
      ap (λ n. line_start n start (c ∷ (a ++ b))) count ∙ ap (λ l. found start (l ++ b)) (sym last),
      ap (λ l. start + byte_len l) last,
    )

-- The line after the newlines of a front starts at the front's last line.
pub line_start-append : (a b : Chars) (start : ℕ) → (at : ℕ) × Starts a b start at
unfolding line_start
line_start-append [] b start = (start, (refl, refl))
line_start-append (c ∷ a) b start =
    let (next, after_newline) = line_start-append a b (start + 1) in
    let (at, after_other) = line_start-append a b (start + len_utf8 c) in
    elim (Bool-cases (c == b'\n')) [
      | inl e ↦ (next, Starts-newline c a b start next e after_newline)
      | inr e ↦ elim (Bool-cases (has_newline a)) [
        | inl h ↦ (at, Starts-other c a b start at e h after_other)
        | inr h ↦ (start, Starts-here c a b start e h)
      ]
    ]

newlines-last_line : (a : Chars) → newlines (last_line a) ≡ 0
newlines-last_line [] = refl
newlines-last_line (c ∷ a) = ground (arith, newlines-last_line a, has_newline-newlines a)

-- The offset behind a front of the line is found by the front's units.
pub offset_from-append :
    (l r : Chars) (wanted us offset : ℕ)
    → wanted ≡ us + units l
    → wanted < u32_bound
    → offset_from wanted us offset (l ++ r) ≡ some (offset + byte_len l)
unfolding offset_from
offset_from-append [] [] wanted us offset h lt =
    let here : (wanted == us) ≡ true = ground arith in
    let none_more : offset ≡ offset + 0 = omega arith in rw here (ap some none_more)
offset_from-append [] (c ∷ r) wanted us offset h lt =
    let here : (wanted == us) ≡ true = ground arith in
    let none_more : offset ≡ offset + 0 = omega arith in rw here (ap some none_more)
offset_from-append (c ∷ l) r wanted us offset h lt =
    let some_units : 1 ≤ len_utf16 c = len_utf16-pos c in
    let here : (wanted == us) ≡ false = ground (arith, some_units) in
    let small : ltb (us + len_utf16 c) u32_bound ≡ true = ground (arith, lt) in
    let before : ltb wanted (us + len_utf16 c) ≡ false = ground arith in
    let total : offset + len_utf8 c + byte_len l ≡ offset + (len_utf8 c + byte_len l) =
      omega arith in
    rw (here, small, before)
      (offset_from-append l r wanted (us + len_utf16 c) (offset + len_utf8 c) (omega (arith, h)) lt
        ∙ ap some total)

-- The position behind a front is taken back to the front's length.
pub byte_offset-append :
    (a b : Chars) (p : ProtocolPosition)
    → p.line ≡ newlines a
    → p.character ≡ units (last_line a)
    → p.character < u32_bound
    → byte_offset (a ++ b) p ≡ some (byte_len a)
unfolding byte_offset line_bounds
byte_offset-append a b p h k lt =
    let (at, (found_at, total)) = line_start-append a b 0 in
    let line : first_line (last_line a ++ b) ≡ last_line a ++ first_line b =
      first_line-append (last_line a) b (newlines-last_line a) in
    rw (h, found_at, line)
      (offset_from-append (last_line a) (first_line b) p.character 0 at (omega (arith, k)) lt
        ∙ ap some (omega (arith, total)))

position_of-some :
    (a : Chars) (p : ProtocolPosition)
    → position_of a ≡ some p
    → (p.line ≡ newlines a) × (p.character ≡ units (last_line a)) × (p.character < u32_bound)
unfolding utf16_length
position_of-some a p h =
    let (line, e, k) = and_then-some (to_u32 (newlines a)) _ p h in
    let (character, f, l) = and_then-some (utf16_length (last_line a)) _ p k in
    let (sum, small) = utf16_from-units (last_line a) 0 character (omega arith) f in
    let same = to_u32-some (newlines a) line e in
    let at_line : line ≡ p.line = cc in
    let at_character : character ≡ p.character = cc in
    (sym at_line ∙ sym same.0, omega (arith, sum, at_character), omega (arith, small, at_character))

-- `byte_offset` takes the position that `utf16_position` gives an offset back to that offset.
pub byte_offset-utf16_position :
    (text : Chars) (offset : ℕ) (p : ProtocolPosition)
    → utf16_position text offset ≡ some p
    → byte_offset text p ≡ some offset
unfolding utf16_position
byte_offset-utf16_position text offset p h =
    let (s, e, k) = and_then-some (split_at text offset) (λ s. position_of s.0) p h in
    let (whole, long) = split_at-whole text offset s.0 s.1 e in
    let (line, character, small) = position_of-some s.0 p k in
    ap (λ t. byte_offset t p) (sym whole)
    ∙ byte_offset-append s.0 s.1 p line character small
    ∙ ap some long
