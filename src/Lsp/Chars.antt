-- ===== src/Lsp/Chars.antt =====
-- A `str` as its code points, and what crates/pure-analyzer-lsp/src/document.rs asks of `str`: lengths,
-- slices at byte offsets and the search for newlines. An offset counts UTF-8 bytes.
use pure_analyzer.Shared.{
  ℕ, zero, suc, ◌+◌, ◌-◌, Bool, false, ◌||◌, Option, none, some, List, [], ◌∷◌, ◌==◌, ltb, leb,
  if◌then◌else◌,
}

abbrev pub Chars : Type 0
Chars = List ℕ

-- `char::len_utf8`
unfoldable pub len_utf8 : ℕ → ℕ
len_utf8 c = if ltb c 128 then 1 else if ltb c 2048 then 2 else if ltb c 65_536 then 3 else 4

-- `char::len_utf16`
unfoldable pub len_utf16 : ℕ → ℕ
len_utf16 c = if ltb c 65_536 then 1 else 2

-- `str::len`
abbrev pub byte_len : Chars → ℕ
byte_len [] = 0
byte_len (c ∷ t) = len_utf8 c + byte_len t

abbrev pub behind : ℕ → Option (Chars × Chars) → Option (Chars × Chars)
behind c none = none
behind c (some (a, b)) = some (c ∷ a, b)

-- The text before an offset and from it on; `none` if the offset is past the end or no boundary.
unfoldable pub split_at : Chars → ℕ → Option (Chars × Chars)
split_at t zero = some ([], t)
split_at [] (suc o) = none
split_at (c ∷ t) (suc o) =
    let rest = split_at t (suc o - len_utf8 c) in
    if leb (len_utf8 c) (suc o) then behind c rest else none

-- `.bytes().filter(|byte| *byte == b'\n').count()`
abbrev pub newlines : Chars → ℕ
newlines [] = 0
newlines (c ∷ t) = if c == b'\n' then suc (newlines t) else newlines t

abbrev pub has_newline : Chars → Bool
has_newline [] = false
has_newline (c ∷ t) = c == b'\n' || has_newline t

-- What follows the last newline, which `rfind` finds, or all of the text.
abbrev pub last_line : Chars → Chars
last_line [] = []
last_line (c ∷ t) = if has_newline t then last_line t else if c == b'\n' then t else c ∷ t

-- What precedes the first newline, or all of the text.
abbrev pub first_line : Chars → Chars
first_line [] = []
first_line (c ∷ t) = if c == b'\n' then [] else c ∷ first_line t

abbrev pub farther : ℕ → Option (ℕ × Chars) → Option (ℕ × Chars)
farther n none = none
farther n (some (k, t)) = some (n + k, t)

-- `find('\n')`: the offset of the first newline, with the text that follows it.
unfoldable pub find_newline : Chars → Option (ℕ × Chars)
find_newline [] = none
find_newline (c ∷ t) = if c == b'\n' then some (0, t) else farther (len_utf8 c) (find_newline t)
