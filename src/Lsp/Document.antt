-- ===== src/Lsp/Document.antt =====
-- crates/pure-analyzer-lsp/src/document.rs: positions in UTF-16 units, content changes and the store of
-- documents. A `str` is its code points; the offsets of a `str` fit a `usize`.
use pure_analyzer.Shared.{
  ℕ, zero, suc, ◌+◌, ◌-◌, Bool, true, false, Option, none, some, List, [], ◌∷◌, ◌++◌, ◌==◌, ltb,
  if◌then◌else◌,
}
use pure_analyzer.Lsp.Chars.{
  Chars, len_utf8, len_utf16, split_at, newlines, last_line, first_line, find_newline,
}

-- 2 ^ 32 and 2 ^ 64
abbrev pub u32_bound : ℕ
u32_bound = 4_294_967_296

abbrev pub u64_bound : ℕ
u64_bound = 18_446_744_073_709_551_616

pub record ProtocolPosition : Type 0 where
  pub line : ℕ
  pub character : ℕ

pub record ProtocolRange : Type 0 where
  pub start : ProtocolPosition
  pub end : ProtocolPosition

pub record ContentChange : Type 0 where
  pub range : Option ProtocolRange
  pub range_length : Option ℕ
  pub text : Chars

-- `u32::try_from`, and the sum of `checked_add`.
abbrev pub to_u32 : ℕ → Option ℕ
to_u32 n = if ltb n u32_bound then some n else none

abbrev pub and_then {ℓ κ} : {A : Type ℓ} {B : Type κ} → Option A → (A → Option B) → Option B
and_then none k = none
and_then (some a) k = k a

-- The fold over the characters, from the length so far.
unfoldable pub utf16_from : ℕ → Chars → Option ℕ
utf16_from length [] = some length
utf16_from length (c ∷ t) = and_then (to_u32 (length + len_utf16 c)) (λ n. utf16_from n t)

unfoldable pub utf16_length : Chars → Option ℕ
unfolding utf16_from
utf16_length t = utf16_from 0 t

abbrev pub position_of : Chars → Option ProtocolPosition
position_of before = and_then (to_u32 (newlines before)) (λ line.
    and_then (utf16_length (last_line before))
      (λ character. some (record { line = line; character = character })))

unfoldable pub utf16_position : Chars → ℕ → Option ProtocolPosition
unfolding split_at utf16_length
utf16_position text offset = and_then (split_at text offset) (λ s. position_of s.0)

-- The loop of `line_bounds`, from a start on; `rest` is the slice from there, behind a newline or the
-- whole text, so that the slicing meets a boundary.
unfoldable pub line_start : ℕ → ℕ → Chars → Option (ℕ × Chars)
unfolding find_newline
line_start zero start rest = some (start, rest)
line_start (suc line) start rest =
    and_then (find_newline rest) (λ found. line_start line (start + found.0 + 1) found.1)

-- The start of the line and the text up to its end.
unfoldable pub line_bounds : Chars → ℕ → Option (ℕ × Chars)
unfolding line_start
line_bounds text line = and_then (line_start line 0 text) (λ s. some (s.0, first_line s.1))

-- The loop over the characters of a line, the next of them at `offset`.
unfoldable pub offset_from : ℕ → ℕ → ℕ → Chars → Option ℕ
offset_from wanted units offset [] = if wanted == units then some offset else none
offset_from wanted units offset (c ∷ t) =
    let later = offset_from wanted (units + len_utf16 c) (offset + len_utf8 c) t in
    if wanted == units
    then some offset
    else and_then (to_u32 (units + len_utf16 c)) (λ next. if ltb wanted next then none else later)

unfoldable pub byte_offset : Chars → ProtocolPosition → Option ℕ
unfolding line_bounds offset_from
byte_offset text p = and_then (line_bounds text p.line) (λ l. offset_from p.character 0 l.0 l.1)

-- How a change ends; a slice at an offset that is no boundary panics.
pub data Changed : Type 0 where
  changed : Chars → Changed
  refused panicked : Changed

abbrev pub fits : Option ℕ → Option ℕ → Bool
fits none measured = true
fits (some length) none = false
fits (some length) (some measured) = measured == length

abbrev pub put_between : Option ℕ → Chars → Chars → Option (Chars × Chars) → Changed
put_between range_length new before none = panicked
put_between range_length new before (some (middle, after)) =
    if fits range_length (utf16_length middle) then changed (before ++ (new ++ after)) else refused

-- `text.replace_range(start..end, ..)` after the check of the slice's length.
abbrev pub splice : Option ℕ → Chars → Option (Chars × Chars) → ℕ → Changed
splice range_length new none inner = panicked
splice range_length new (some (before, rest)) inner =
    put_between range_length new before (split_at rest inner)

abbrev pub splice_at : ContentChange → Chars → Option ℕ → Option ℕ → Changed
splice_at change text none end = refused
splice_at change text (some start) none = refused
splice_at change text (some start) (some end) =
    if ltb end start
    then refused
    else splice change.range_length change.text (split_at text start) (end - start)

abbrev pub change_range : ContentChange → Chars → Option ProtocolRange → Changed
change_range change text none =
    if fits change.range_length (utf16_length text) then changed change.text else refused
change_range change text (some r) =
    splice_at change text (byte_offset text r.start) (byte_offset text r.end)

unfoldable pub apply_change : Chars → ContentChange → Changed
unfolding byte_offset split_at utf16_length
apply_change text change = change_range change text change.range

abbrev pub go_on : (Chars → Changed) → Changed → Changed
go_on again (changed text) = again text
go_on again refused = refused
go_on again panicked = panicked

-- `changes.iter().all(..)` on one text.
unfoldable pub apply_all : Chars → List ContentChange → Changed
unfolding apply_change
apply_all text [] = changed text
apply_all text (c ∷ cs) = go_on (λ next. apply_all next cs) (apply_change text c)
