-- ===== src/Lsp/Tests.antt =====
-- Positions, changes and a store of one document.
use text.Mathlib.Text.{◌==◌ as str_eq}
use pure_analyzer.Shared.{ℕ, none, some, [], ◌∷◌, ◌≡◌, refl, if◌then◌else◌, arith}
use pure_analyzer.Lsp.Chars.{Chars, len_utf8, len_utf16, split_at, find_newline}
use pure_analyzer.Lsp.Document.{
  ProtocolPosition, ContentChange, utf16_position, utf16_length, line_bounds, byte_offset, changed,
  refused, fits, apply_change,
}
use pure_analyzer.Lsp.Store.{pos, DocumentSnapshot, DocumentStore, apply_changes, replace}
use pure_analyzer.Lsp.Positions.{byte_offset-utf16_position}
use pure_analyzer.Lsp.Offsets.{utf16_position-byte_offset}
use pure_analyzer.Lsp.Changes.{apply_change-range}
use pure_analyzer.Lsp.Newer.{IsKeptOrNewer, replace-IsKeptOrNewer}
use pure_analyzer.Lsp.Versions.{Outcome, apply_changes-Outcome}

-- An ASCII line, and a line with a letter of two bytes and one of four, two UTF-16 units wide.
abbrev source : Chars
source = 97 ∷ 10 ∷ 233 ∷ 66_615 ∷ 98 ∷ []

abbrev at : ℕ → ℕ → ProtocolPosition
at l c = record { line = l; character = c }

behind_wide : utf16_position source 8 ≡ some (at 1 3)
unfolding utf16_position split_at utf16_length len_utf8 len_utf16
behind_wide = refl

-- No offset lies inside a surrogate pair.
inside_wide : byte_offset source (at 1 2) ≡ none
unfolding byte_offset line_bounds find_newline len_utf8 len_utf16
inside_wide = refl

byte_offset-utf16_position_example : byte_offset source (at 1 3) ≡ some 8
byte_offset-utf16_position_example = byte_offset-utf16_position source 8 (at 1 3) behind_wide

utf16_position-byte_offset_example : utf16_position source 2 ≡ some (at 1 0)
unfolding byte_offset line_bounds find_newline len_utf8 len_utf16
utf16_position-byte_offset_example =
    utf16_position-byte_offset source (at 1 0) 2 (omega arith) (omega arith) refl

abbrev change : ContentChange
change = record {
  range = some (record { start = at 1 1; end = at 1 3 });
  range_length = some 2;
  text = 99 ∷ [];
}

apply_change-range_example : apply_change source change ≡ (
    if fits (some 2) (utf16_length (66_615 ∷ []))
    then changed (97 ∷ 10 ∷ 233 ∷ 99 ∷ 98 ∷ [])
    else refused)
unfolding utf16_position split_at utf16_length len_utf8 len_utf16
apply_change-range_example =
    apply_change-range (97 ∷ 10 ∷ 233 ∷ []) (66_615 ∷ []) (98 ∷ []) (99 ∷ []) (at 1 1) (at 1 3)
      (some 2) refl refl

abbrev snapshot : DocumentSnapshot
snapshot = record { uri = "file:///a.pure"; text = source; version = some (pos 3) }

abbrev store : DocumentStore
store = record {
  documents = λ u. if str_eq "file:///a.pure" u then some snapshot else none;
  revision = 1;
}

apply_changes-Outcome_example :
    Outcome store "file:///a.pure"
      (pos 4)
      (change ∷ [])
      (apply_changes store "file:///a.pure" (pos 4) (change ∷ []))
apply_changes-Outcome_example = apply_changes-Outcome store "file:///a.pure" (pos 4) (change ∷ [])

replace-IsKeptOrNewer_example : IsKeptOrNewer snapshot (
    (replace store (record snapshot { text = []; version = some (pos 2) })).1.documents
      "file:///a.pure")
replace-IsKeptOrNewer_example =
    replace-IsKeptOrNewer store (record snapshot { text = []; version = some (pos 2) })
      "file:///a.pure" snapshot refl
