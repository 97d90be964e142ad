-- ===== src/Diagnostics/Text.antt =====
-- Source text as its UTF-8 bytes, with the two operations of `str` and `String` that
-- crates/pure-analyzer-diagnostics/src/fix_plan.rs relies on: `is_char_boundary` and `replace_range`.
use pure_analyzer.Shared.{
  ℕ, zero, suc, Bool, true, false, not, ◌&&◌, Option, none, some, List, [], ◌∷◌, ◌++◌, ltb, leb,
  if◌then◌else◌, length, take, drop,
}

abbrev pub Text : Type 0
Text = List ℕ

-- A byte 0b10xxxxxx continues a code point.
abbrev pub is_continuation : ℕ → Bool
is_continuation b = leb 128 b && ltb b 192

abbrev pub starts_char : Text → Bool
starts_char [] = true
starts_char (b ∷ t) = not (is_continuation b)

abbrev pub boundary_inside : Text → ℕ → Bool
boundary_inside t zero = starts_char t
boundary_inside [] (suc i) = false
boundary_inside (b ∷ t) (suc i) = boundary_inside t i

-- Offset 0 and the end are boundaries, and so is each offset at which no continuation byte stands.
unfoldable pub is_char_boundary : Text → ℕ → Bool
is_char_boundary t zero = true
is_char_boundary t (suc i) = boundary_inside t (suc i)

-- `none` is the panic of `replace_range` on a range that is reversed, out of bounds or inside a code
-- point.
unfoldable pub replace_range : Text → ℕ → ℕ → Text → Option Text
replace_range t start end new =
    if leb start end && (leb end (length t) && (is_char_boundary t start && is_char_boundary t end))
    then some (take start t ++ (new ++ drop end t))
    else none
