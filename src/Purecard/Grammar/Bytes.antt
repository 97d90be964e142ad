-- ===== src/Purecard/Grammar/Bytes.antt =====
-- crates/pure-analyzer-purecard/src/grammar/pda.rs: the byte classes, what a frame allows inside
-- it, and the closers. A byte is a number; the source's `u8` is never computed with.
use pure_analyzer.Shared.{
  ℕ, Bool, true, false, ◌&&◌, ◌||◌, Option, none, some, List, [], ◌∷◌, leb, ◌==◌, if◌then◌else◌,
}
use pure_analyzer.Purecard.Grammar.State.{
  State, after_value, Frame, paren, group, bracket, brace, brace_lambda, rel_col_bracket, Step, pop,
  dead,
}

unfoldable pub is_ws : ℕ → Bool
is_ws byte = byte == b' ' || byte == b'\t' || byte == b'\n' || byte == b'\r'

abbrev is_alpha : ℕ → Bool
is_alpha byte = (leb b'a' byte && leb byte b'z') || (leb b'A' byte && leb byte b'Z')

unfoldable pub is_ascii_digit : ℕ → Bool
is_ascii_digit byte = leb b'0' byte && leb byte b'9'

unfoldable pub is_ident_start : ℕ → Bool
is_ident_start byte = is_alpha byte || byte == b'_'

unfoldable pub is_ident_tail : ℕ → Bool
unfolding is_ascii_digit
is_ident_tail byte = is_alpha byte || is_ascii_digit byte || byte == b'_'

abbrev pub all_frames : List Frame
all_frames = paren ∷ group ∷ bracket ∷ brace ∷ brace_lambda ∷ rel_col_bracket ∷ []

-- `VALUE_BOUNDARY`
abbrev pub value_boundary : ℕ
value_boundary = b' '

unfoldable pub separates_elements : Option Frame → Bool
separates_elements (some paren) = true
separates_elements (some bracket) = true
separates_elements (some brace_lambda) = true
separates_elements (some rel_col_bracket) = true
separates_elements _ = false

abbrev is_group : Option Frame → Bool
is_group (some group) = true
is_group _ = false

unfoldable pub holds_a_lambda_slot : Option Frame → Bool
unfolding separates_elements
holds_a_lambda_slot top = separates_elements top || is_group top

abbrev closed_by : ℕ → ℕ → State → Step
closed_by expected byte resume = if byte == expected then pop resume else dead

unfoldable pub close_to : Option Frame → ℕ → State → Step
close_to (some paren) byte resume = closed_by b')' byte resume
close_to (some group) byte resume = closed_by b')' byte resume
close_to (some bracket) byte resume = closed_by b']' byte resume
close_to (some rel_col_bracket) byte resume = closed_by b']' byte resume
close_to (some brace) byte resume = closed_by b'}' byte resume
close_to (some brace_lambda) byte resume = closed_by b'}' byte resume
close_to none byte resume = dead

unfoldable pub close : Option Frame → ℕ → Step
unfolding close_to
close top byte = close_to top byte after_value
