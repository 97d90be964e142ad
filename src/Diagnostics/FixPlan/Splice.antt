-- ===== src/Diagnostics/FixPlan/Splice.antt =====
-- Applying the edits of a file from the last to the first is copying the source once, with each
-- edited range replaced; no replacement panics.
use pure_analyzer.Shared.{
  ℕ, zero, suc, ◌-◌, ◌≤◌, true, some, List, [], ◌∷◌, ◌++◌, ◌≡◌, refl, ap, ◌∙◌, arith, length, take,
  drop, take_between, drop_between, take-take-append, drop-take-append, take-append-drop,
  append_assoc,
}
use pure_analyzer.Shared.Every.{All, All-map}
use pure_analyzer.Diagnostics.Text.{
  Text, starts_char, boundary_inside, is_char_boundary, replace_range,
}
use pure_analyzer.Diagnostics.Fix.{TextEdit}
use pure_analyzer.Diagnostics.FixPlan.Sorting.{Chained}
use pure_analyzer.Diagnostics.FixPlan.Apply.{edited, then_replace}

-- The result of the edits, from the source's offset `pos` on; `rest` is what is not yet copied.
unfoldable pub splice : ℕ → Text → List TextEdit → Text
splice pos rest [] = rest
splice pos rest (e ∷ es) =
    take (e.span.start - pos) rest
    ++ (e.new_text ++ splice e.span.end (drop (e.span.end - pos) rest) es)

pub record Fits (t : Text) (e : TextEdit) : Type 0 where
  pub ordered : e.span.start ≤ e.span.end
  pub inside : e.span.end ≤ length t
  pub start_boundary : is_char_boundary t e.span.start ≡ true
  pub end_boundary : is_char_boundary t e.span.end ≡ true

-- The replacement is a string of its own: it does not begin inside a code point.
abbrev pub IsString : TextEdit → Type 0
IsString e = starts_char e.new_text ≡ true

starts_char-append :
    (s t : Text) → starts_char s ≡ true → starts_char t ≡ true → starts_char (s ++ t) ≡ true
starts_char-append [] t h k = k
starts_char-append (b ∷ s) t h k = h

starts_char-take : (n : ℕ) (t : Text) → starts_char t ≡ true → starts_char (take n t) ≡ true
starts_char-take zero t h = refl
starts_char-take (suc n) [] h = refl
starts_char-take (suc n) (b ∷ t) h = h

boundary_inside-drop :
    (t : Text) (i : ℕ) → boundary_inside t i ≡ true → starts_char (drop i t) ≡ true
boundary_inside-drop [] zero h = refl
boundary_inside-drop [] (suc i) h = refl
boundary_inside-drop (b ∷ t) zero h = h
boundary_inside-drop (b ∷ t) (suc i) h = boundary_inside-drop t i h

is_char_boundary-drop :
    (t : Text) (i : ℕ)
    → starts_char t ≡ true
    → is_char_boundary t i ≡ true
    → starts_char (drop i t) ≡ true
unfolding is_char_boundary
is_char_boundary-drop t zero s h = s
is_char_boundary-drop t (suc i) s h = boundary_inside-drop t (suc i) h

boundary_inside_prefix :
    (i j : ℕ) (t x : Text)
    → i ≤ j
    → j ≤ length t
    → starts_char x ≡ true
    → boundary_inside t i ≡ true
    → boundary_inside (take j t ++ x) i ≡ true
boundary_inside_prefix zero zero t x h k s b = s
boundary_inside_prefix zero (suc j) [] x h k s b = absurd (omega arith)
boundary_inside_prefix zero (suc j) (c ∷ t) x h k s b = b
boundary_inside_prefix (suc i) zero t x h k s b = absurd (omega arith)
boundary_inside_prefix (suc i) (suc j) [] x h k s b = absurd (omega arith)
boundary_inside_prefix (suc i) (suc j) (c ∷ t) x h k s b =
    boundary_inside_prefix i j t x (omega arith) (omega arith) s b

boundary_prefix :
    (i j : ℕ) (t x : Text)
    → i ≤ j
    → j ≤ length t
    → starts_char x ≡ true
    → is_char_boundary t i ≡ true
    → is_char_boundary (take j t ++ x) i ≡ true
unfolding is_char_boundary
boundary_prefix zero j t x h k s b = refl
boundary_prefix (suc i) j t x h k s b = boundary_inside_prefix (suc i) j t x h k s b

le-length-take : (j : ℕ) (t x : Text) → j ≤ length t → j ≤ length (take j t ++ x)
le-length-take zero t x h = omega arith
le-length-take (suc j) [] x h = absurd (omega arith)
le-length-take (suc j) (c ∷ t) x h = omega (arith, le-length-take j t x (omega arith))

-- One replacement, where everything behind the range has been rewritten to `x` already.
replace_range_prefix :
    (t x : Text) (e : TextEdit)
    → Fits t e
    → starts_char x ≡ true
    → replace_range (take e.span.end t ++ x) e.span.start e.span.end e.new_text
      ≡ some (take e.span.start t ++ (e.new_text ++ x))
unfolding replace_range
replace_range_prefix t x e f s =
    let i = e.span.start in
    let j = e.span.end in
    ground (
      arith,
      le-length-take j t x f.inside,
      boundary_prefix i j t x f.ordered f.inside s f.start_boundary,
      boundary_prefix j j t x (omega arith) f.inside s f.end_boundary,
      take-take-append i j t x f.ordered f.inside,
      drop-take-append j t x f.inside,
    )

starts_char-splice :
    (t : Text) (pos : ℕ) (es : List TextEdit)
    → starts_char t ≡ true
    → starts_char (drop pos t) ≡ true
    → All (λ e. pos ≤ e.span.start) es
    → Chained es
    → All (Fits t) es
    → All IsString es
    → starts_char (splice pos (drop pos t) es) ≡ true
unfolding splice
starts_char-splice t pos [] st h ps c fs ss = h
starts_char-splice t pos (e ∷ es) st h (p, ps) (b, c) (f, fs) (s, ss) =
    let far : pos ≤ e.span.end = omega (arith, p, f.ordered) in
    starts_char-append (take (e.span.start - pos) (drop pos t)) _
      (starts_char-take (e.span.start - pos) (drop pos t) h)
      (starts_char-append e.new_text _ s (
        rw (drop_between pos e.span.end t far) (
          starts_char-splice t e.span.end es st
            (is_char_boundary-drop t e.span.end st f.end_boundary) b c fs ss)))

-- The edits from the offset `pos` on rewrite what stands behind it, and leave the rest alone.
edited_from :
    (t : Text) (pos : ℕ) (es : List TextEdit)
    → starts_char t ≡ true
    → All (λ e. pos ≤ e.span.start) es
    → Chained es
    → All (Fits t) es
    → All IsString es
    → edited t es ≡ some (take pos t ++ splice pos (drop pos t) es)
unfolding edited splice
edited_from t pos [] st ps c fs ss = ap some (take-append-drop pos t)
edited_from t pos (e ∷ es) st (p, ps) (b, c) (f, fs) (s, ss) =
    let x = splice e.span.end (drop e.span.end t) es in
    let sx : starts_char x ≡ true =
      starts_char-splice t e.span.end es st (is_char_boundary-drop t e.span.end st f.end_boundary) b
        c fs ss in
    ap (then_replace e) (edited_from t e.span.end es st b c fs ss)
    ∙ replace_range_prefix t x e f sx
    ∙ ap some (
        rw
          (
            drop_between pos e.span.end t (omega (arith, p, f.ordered)),
            ← take_between pos e.span.start t p,
          )
          (append_assoc (take pos t) (take (e.span.start - pos) (drop pos t)) (e.new_text ++ x)))

-- The edits of a file, applied from the last to the first, do not panic and give the source with
-- each range replaced in one pass from left to right.
pub edited-splice :
    (t : Text) (es : List TextEdit)
    → starts_char t ≡ true
    → Chained es
    → All (Fits t) es
    → All IsString es
    → edited t es ≡ some (splice 0 t es)
edited-splice t es st c fs ss = edited_from t 0 es st (All-map (λ e h. omega arith) es fs) c fs ss
