-- ===== src/Purecard/Grammar/Brackets.antt =====
-- An independent description of the nesting of a query: brackets outside quotes must match, and a
-- quote opens or ends a literal. Every step of the automaton follows it.
use pure_analyzer.Shared.{
  ℕ, Bool, true, false, not, ◌||◌, Option, none, some, ◌≡◌, ◌≢◌, arith, ◌==◌, if◌then◌else◌,
}
use pure_analyzer.Purecard.Grammar.State.{
  State, start, expect_value, expect_value_req, expect_lambda_body, saw_dash, saw_pipe, saw_gt,
  saw_lt, after_value, in_milestone_lit, after_name, after_member_name, after_str_lit,
  after_rel_col_name, in_ident, in_member_ident, in_rel_col_ident, in_number_int, in_number_frac,
  in_exp, in_date_lit, in_date_time, in_date_frac, in_str_lit, in_rel_col_str_lit, Frame, paren,
  group, bracket, brace, brace_lambda, rel_col_bracket, Step, next, push, pop, dead,
}
use pure_analyzer.Purecard.Grammar.Bytes.{
  is_ws, is_ident_start, is_ident_tail, is_ascii_digit, close,
}
use pure_analyzer.Purecard.Grammar.Hubs.{value_position, step_after_value}
use pure_analyzer.Purecard.Grammar.Dispatch.{step}

abbrev pub closer : Frame → ℕ
closer paren = b')'
closer group = b')'
closer bracket = b']'
closer rel_col_bracket = b']'
closer brace = b'}'
closer brace_lambda = b'}'

-- Inside a literal, before its closing quote.
unfoldable pub in_quotes : State → Bool
in_quotes (in_str_lit escaped) = not escaped
in_quotes (in_rel_col_str_lit escaped) = not escaped
in_quotes _ = false

pub data Change : Type 0 where
  stay : Change
  opened : ℕ → Change
  closed : Change

abbrev pub closing : Option ℕ → ℕ → Option (Bool × Change)
closing none b = none
closing (some c) b = if b == c then some (false, closed) else none

-- One byte of the description: whether a literal is open before and after it, and what it does to
-- the closers that are owed, of which it sees the first.
unfoldable pub scan_step : Bool → Option ℕ → ℕ → Option (Bool × Change)
scan_step true owed b = some (not (b == b'\''), stay)
scan_step false owed b =
    if b == b'\''
    then some (true, stay)
    else if b == b'('
    then some (false, opened b')')
    else if b == b'['
    then some (false, opened b']')
    else if b == b'{'
    then some (false, opened b'}')
    else if b == b')' || b == b']' || b == b'}'
    then closing owed b
    else some (false, stay)

abbrev pub view_step : Step → Option (Bool × Change)
view_step (next t) = some (in_quotes t, stay)
view_step (push f t) = some (in_quotes t, opened (closer f))
view_step (pop t) = some (in_quotes t, closed)
view_step dead = none

abbrev pub owed_by : Option Frame → Option ℕ
owed_by none = none
owed_by (some f) = some (closer f)

abbrev IsPlain : ℕ → Type 0
IsPlain b =
    (b ≢ b'\'') × (b ≢ b'(') × (b ≢ b'[') × (b ≢ b'{') × (b ≢ b')') × (b ≢ b']') × (b ≢ b'}')

is_ws-IsPlain : (b : ℕ) → is_ws b ≡ true → IsPlain b
unfolding is_ws
is_ws-IsPlain b h = ground arith

is_ident_start-IsPlain : (b : ℕ) → is_ident_start b ≡ true → IsPlain b
unfolding is_ident_start
is_ident_start-IsPlain b h = ground arith

is_ident_tail-IsPlain : (b : ℕ) → is_ident_tail b ≡ true → IsPlain b
unfolding is_ident_tail
is_ident_tail-IsPlain b h = ground arith

is_ascii_digit-IsPlain : (b : ℕ) → is_ascii_digit b ≡ true → IsPlain b
unfolding is_ascii_digit
is_ascii_digit-IsPlain b h = ground arith

value_position-scan_step :
    (top : Option Frame) (b : ℕ) (allow : Bool)
    → value_position top b allow ≢ dead
    → scan_step false (owed_by top) b ≡ view_step (value_position top b allow)
unfolding value_position close scan_step in_quotes
value_position-scan_step top b allow h =
    ground (arith, is_ws-IsPlain b, is_ident_start-IsPlain b, is_ascii_digit-IsPlain b)

step_after_value-scan_step :
    (top : Option Frame) (b : ℕ)
    → step_after_value top b ≢ dead
    → scan_step false (owed_by top) b ≡ view_step (step_after_value top b)
unfolding step_after_value close scan_step in_quotes
step_after_value-scan_step top b h = ground (arith, is_ws-IsPlain b)

-- A byte that is not refused changes the literal and the open brackets as the description says.
pub step-scan_step :
    (s : State) (top : Option Frame) (b : ℕ)
    → step s top b ≢ dead
    → scan_step (in_quotes s) (owed_by top) b ≡ view_step (step s top b)
unfolding step scan_step in_quotes
step-scan_step start top b h = ground (arith, is_ws-IsPlain b)
step-scan_step expect_value top b h = value_position-scan_step top b true h
step-scan_step expect_value_req top b h = value_position-scan_step top b false h
step-scan_step expect_lambda_body top b h = ground (arith, value_position-scan_step top b false)
step-scan_step saw_dash top b h = ground (arith, value_position-scan_step top b false)
step-scan_step saw_pipe top b h = ground (arith, value_position-scan_step top b false)
step-scan_step saw_gt top b h = ground (arith, value_position-scan_step top b false)
step-scan_step saw_lt top b h = ground (arith, value_position-scan_step top b false)
step-scan_step after_value top b h = step_after_value-scan_step top b h
step-scan_step in_milestone_lit top b h = step_after_value-scan_step top b h
step-scan_step after_name top b h =
    ground (arith, is_ws-IsPlain b, step_after_value-scan_step top b)
step-scan_step after_member_name top b h =
    ground (arith, is_ws-IsPlain b, step_after_value-scan_step top b)
step-scan_step after_str_lit top b h =
    ground (arith, is_ws-IsPlain b, step_after_value-scan_step top b)
step-scan_step after_rel_col_name top b h =
    ground (arith, is_ws-IsPlain b, step_after_value-scan_step top b)
step-scan_step (in_str_lit escaped) top b h =
    ground (arith, is_ws-IsPlain b, step_after_value-scan_step top b)
step-scan_step (in_rel_col_str_lit escaped) top b h =
    ground (arith, is_ws-IsPlain b, step_after_value-scan_step top b)
step-scan_step in_ident top b h =
    ground (arith, is_ident_tail-IsPlain b, is_ws-IsPlain b, step_after_value-scan_step top b)
step-scan_step in_member_ident top b h =
    ground (arith, is_ident_tail-IsPlain b, is_ws-IsPlain b, step_after_value-scan_step top b)
step-scan_step in_rel_col_ident top b h =
    ground (arith, is_ident_tail-IsPlain b, is_ws-IsPlain b, step_after_value-scan_step top b)
step-scan_step in_number_int top b h =
    ground (arith, is_ascii_digit-IsPlain b, step_after_value-scan_step top b)
step-scan_step in_number_frac top b h =
    ground (arith, is_ascii_digit-IsPlain b, step_after_value-scan_step top b)
step-scan_step in_exp top b h =
    ground (arith, is_ascii_digit-IsPlain b, step_after_value-scan_step top b)
step-scan_step in_date_lit top b h =
    ground (arith, is_ascii_digit-IsPlain b, step_after_value-scan_step top b)
step-scan_step in_date_time top b h =
    ground (arith, is_ascii_digit-IsPlain b, step_after_value-scan_step top b)
step-scan_step in_date_frac top b h =
    ground (arith, is_ascii_digit-IsPlain b, step_after_value-scan_step top b)
step-scan_step _ top b h = ground (
  arith,
  is_ws-IsPlain b,
  is_ident_start-IsPlain b,
  is_ident_tail-IsPlain b,
  is_ascii_digit-IsPlain b,
)
