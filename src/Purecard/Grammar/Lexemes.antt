-- ===== src/Purecard/Grammar/Lexemes.antt =====
-- crates/pure-analyzer-purecard/src/grammar/pda.rs: the states inside a name, a number, a string or
-- a date, and one byte into an operator. Where the source calls `step` at a hub state, the hub's own
-- function stands here, the target of that state's arm in `step`.
use pure_analyzer.Shared.{ℕ, Bool, true, false, not, ◌||◌, Option, ◌==◌, if◌then◌else◌}
use pure_analyzer.Purecard.Grammar.State.{
  State, expect_value_req, in_ident, in_member_ident, in_number_int, need_frac_digit,
  in_number_frac, saw_exp, need_exp_digit, in_exp, in_date_lit, date_sep, in_date_time,
  date_time_sep, in_date_frac, date_frac, milestone_l, after_arrow, in_rel_col_ident,
  in_arrow_ident, in_str_lit, in_rel_col_str_lit, expect_rel_col_spec, rel_col_bracket, Frame, Step,
  next, push, dead,
}
use pure_analyzer.Purecard.Grammar.Bytes.{
  is_ascii_digit, is_ident_start, is_ident_tail, holds_a_lambda_slot,
}
use pure_analyzer.Purecard.Grammar.Hubs.{
  value_position, step_after_value, step_after_name, step_after_member_name, step_after_arrow_name,
  step_after_str_lit, step_after_rel_col_name,
}

unfoldable pub step_in_ident : Option Frame → ℕ → Step
step_in_ident top byte = if is_ident_tail byte then next in_ident else step_after_name top byte

unfoldable pub step_in_member_ident : Option Frame → ℕ → Step
step_in_member_ident top byte =
    if is_ident_tail byte then next in_member_ident else step_after_member_name top byte

unfoldable pub step_in_arrow_ident : ℕ → Step
step_in_arrow_ident byte =
    if is_ident_tail byte then next in_arrow_ident else step_after_arrow_name byte

unfoldable pub step_in_rel_col_ident : Option Frame → ℕ → Step
step_in_rel_col_ident top byte =
    if is_ident_tail byte then next in_rel_col_ident else step_after_rel_col_name top byte

unfoldable pub step_in_rel_col_str_lit : Bool → Option Frame → ℕ → Step
step_in_rel_col_str_lit escaped top byte =
    if escaped
    then if byte == b'\'' then next (in_rel_col_str_lit false) else step_after_rel_col_name top byte
    else if byte == b'\''
    then next (in_rel_col_str_lit true)
    else next (in_rel_col_str_lit false)

unfoldable pub step_saw_num_sign : ℕ → Step
step_saw_num_sign byte =
    if is_ascii_digit byte
    then next in_number_int
    else if byte == b'.'
    then next need_frac_digit
    else dead

unfoldable pub step_in_number_int : Option Frame → ℕ → Step
step_in_number_int top byte =
    if is_ascii_digit byte
    then next in_number_int
    else if byte == b'.'
    then next need_frac_digit
    else step_after_value top byte

unfoldable pub step_need_frac_digit : ℕ → Step
step_need_frac_digit byte = if is_ascii_digit byte then next in_number_frac else dead

unfoldable pub step_in_number_frac : Option Frame → ℕ → Step
step_in_number_frac top byte =
    if is_ascii_digit byte
    then next in_number_frac
    else if byte == b'e' || byte == b'E'
    then next saw_exp
    else step_after_value top byte

unfoldable pub step_saw_exp : ℕ → Step
step_saw_exp byte =
    if byte == b'+' || byte == b'-'
    then next need_exp_digit
    else if is_ascii_digit byte
    then next in_exp
    else dead

unfoldable pub step_need_exp_digit : ℕ → Step
step_need_exp_digit byte = if is_ascii_digit byte then next in_exp else dead

unfoldable pub step_in_exp : Option Frame → ℕ → Step
step_in_exp top byte = if is_ascii_digit byte then next in_exp else step_after_value top byte

unfoldable pub step_in_str_lit : Bool → Option Frame → ℕ → Step
step_in_str_lit escaped top byte =
    if escaped
    then if byte == b'\'' then next (in_str_lit false) else step_after_str_lit top byte
    else if byte == b'\''
    then next (in_str_lit true)
    else next (in_str_lit false)

-- `MILESTONE_LATEST[0]` is `l`.
unfoldable pub step_saw_percent : ℕ → Step
step_saw_percent byte =
    if is_ascii_digit byte
    then next in_date_lit
    else if byte == b'l'
    then next milestone_l
    else dead

unfoldable pub milestone_link : ℕ → State → ℕ → Step
milestone_link expected target byte = if byte == expected then next target else dead

unfoldable pub step_in_date_lit : Option Frame → ℕ → Step
step_in_date_lit top byte =
    if is_ascii_digit byte
    then next in_date_lit
    else if byte == b'-' || byte == b'T'
    then next date_sep
    else if byte == b':'
    then next date_time_sep
    else step_after_value top byte

unfoldable pub date_field : State → ℕ → Step
date_field target byte = if is_ascii_digit byte then next target else dead

unfoldable pub step_in_date_time : Option Frame → ℕ → Step
step_in_date_time top byte =
    if is_ascii_digit byte
    then next in_date_time
    else if byte == b'-' || byte == b':'
    then next date_time_sep
    else if byte == b'.'
    then next date_frac
    else step_after_value top byte

unfoldable pub step_in_date_frac : Option Frame → ℕ → Step
step_in_date_frac top byte =
    if is_ascii_digit byte then next in_date_frac else step_after_value top byte

unfoldable pub step_expect_lambda_body : Option Frame → ℕ → Step
step_expect_lambda_body top byte = if byte == b'|' then dead else value_position top byte false

unfoldable pub step_saw_dash : Option Frame → ℕ → Step
step_saw_dash top byte = if byte == b'>' then next after_arrow else value_position top byte false

unfoldable pub step_saw_pipe : Option Frame → ℕ → Step
step_saw_pipe top byte =
    if byte == b'|'
    then next expect_value_req
    else if not (holds_a_lambda_slot top)
    then dead
    else value_position top byte false

-- `step_saw_value_pipe`, `step_saw_eq`, `step_saw_bang` and `step_saw_amp`: the operator's second
-- byte must be this one.
unfoldable pub step_saw_value_pipe : ℕ → Step
step_saw_value_pipe byte = if byte == b'|' then next expect_value_req else dead

unfoldable pub step_saw_eq : ℕ → Step
step_saw_eq byte = if byte == b'=' then next expect_value_req else dead

unfoldable pub step_saw_bang : ℕ → Step
step_saw_bang byte = if byte == b'=' then next expect_value_req else dead

unfoldable pub step_saw_gt : Option Frame → ℕ → Step
step_saw_gt top byte = if byte == b'=' then next expect_value_req else value_position top byte false

unfoldable pub step_saw_lt : Option Frame → ℕ → Step
step_saw_lt top byte = if byte == b'=' then next expect_value_req else value_position top byte false

unfoldable pub step_saw_amp : ℕ → Step
step_saw_amp byte = if byte == b'&' then next expect_value_req else dead

unfoldable pub step_saw_tilde : ℕ → Step
step_saw_tilde byte =
    if byte == b'['
    then push rel_col_bracket expect_rel_col_spec
    else if byte == b'\''
    then next (in_rel_col_str_lit false)
    else if is_ident_start byte
    then next in_rel_col_ident
    else dead
