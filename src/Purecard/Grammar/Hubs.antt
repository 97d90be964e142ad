-- ===== src/Purecard/Grammar/Hubs.antt =====
-- crates/pure-analyzer-purecard/src/grammar/pda.rs: the hubs, where a term, a statement or a column
-- specification begins, and where a completed term waits for what continues it.
use pure_analyzer.Shared.{ℕ, Bool, false, ◌&&◌, ◌||◌, Option, ◌==◌, if◌then◌else◌}
use pure_analyzer.Purecard.Grammar.State.{
  start, expect_source, after_brace_open, block_stmt, block_stmt_close, in_source_ident, let_l,
  in_multiplicity, expect_brace_binder, expect_value, expect_value_req, after_value, after_name,
  after_member_name, after_str_lit, in_ident, saw_num_sign, in_number_int, need_frac_digit,
  saw_percent, after_dollar, after_dot, after_colon, after_value_colon, saw_dash, saw_pipe,
  saw_value_pipe, saw_eq, saw_bang, saw_gt, saw_lt, saw_amp, saw_tilde, in_rel_col_ident,
  after_rel_col_name, expect_rel_col_spec, expect_rel_col_spec_req, after_rel_col_colon,
  after_arrow_name, in_str_lit, in_rel_col_str_lit, Frame, paren, group, bracket, brace,
  brace_lambda, rel_col_bracket, Step, next, push, dead, top_is,
}
use pure_analyzer.Purecard.Grammar.Bytes.{
  is_ws, is_ascii_digit, is_ident_start, separates_elements, holds_a_lambda_slot, close,
}

abbrev pub is_closer : ℕ → Bool
is_closer byte = byte == b')' || byte == b']' || byte == b'}'

unfoldable pub value_position : Option Frame → ℕ → Bool → Step
unfolding top_is
value_position top byte allow_close =
    if is_ws byte
    then next (if allow_close then expect_value else expect_value_req)
    else if is_ident_start byte
    then next in_ident
    else if is_ascii_digit byte
    then next in_number_int
    else if byte == b'-'
    then next saw_num_sign
    else if byte == b'.'
    then next need_frac_digit
    else if byte == b'\''
    then next (in_str_lit false)
    else if byte == b'%'
    then next saw_percent
    else if byte == b'$'
    then next after_dollar
    else if byte == b'~'
    then next saw_tilde
    else if byte == b'('
    then push group expect_value
    else if byte == b'['
    then push bracket expect_value
    else if byte == b'{'
    then push brace_lambda expect_brace_binder
    else if byte == b'|'
    then next expect_value_req
    else if byte == b'!'
    then next expect_value_req
    else if byte == b'*' && (allow_close && top_is top bracket)
    then next in_multiplicity
    else if is_closer byte && allow_close
    then close top byte
    else dead

unfoldable pub rel_col_spec_position : Option Frame → ℕ → Bool → Step
rel_col_spec_position top byte allow_close =
    if is_ws byte
    then next (if allow_close then expect_rel_col_spec else expect_rel_col_spec_req)
    else if is_ident_start byte
    then next in_rel_col_ident
    else if byte == b'\''
    then next (in_rel_col_str_lit false)
    else if byte == b']' && allow_close
    then close top byte
    else dead

-- The source's function `block_stmt`.
unfoldable pub block_stmt_position : Option Frame → ℕ → Bool → Step
block_stmt_position top byte allow_close =
    if is_ws byte
    then next (if allow_close then block_stmt_close else block_stmt)
    else if byte == b'l'
    then next let_l
    else if is_ident_start byte
    then next in_source_ident
    else if byte == b'$'
    then next after_dollar
    else if byte == b'}' && allow_close
    then close top byte
    else dead

unfoldable pub step_start : ℕ → Step
step_start byte =
    if is_ws byte
    then next start
    else if byte == b'|'
    then next expect_source
    else if byte == b'{'
    then push brace after_brace_open
    else dead

unfoldable pub step_expect_source : ℕ → Step
step_expect_source byte =
    if is_ws byte
    then next expect_source
    else if is_ident_start byte
    then next in_source_ident
    else dead

unfoldable pub step_after_brace_open : ℕ → Step
step_after_brace_open byte =
    if is_ws byte then next after_brace_open else if byte == b'|' then next block_stmt else dead

unfoldable pub step_after_value : Option Frame → ℕ → Step
unfolding top_is
step_after_value top byte =
    if is_ws byte
    then next after_value
    else if byte == b'-'
    then next saw_dash
    else if byte == b'>'
    then next saw_gt
    else if byte == b'<'
    then next saw_lt
    else if byte == b'='
    then next saw_eq
    else if byte == b'!'
    then next saw_bang
    else if byte == b'&'
    then next saw_amp
    else if byte == b'|'
    then next saw_value_pipe
    else if byte == b'+' || byte == b'*' || byte == b'/'
    then next expect_value_req
    else if byte == b'.'
    then next after_dot
    else if byte == b':' && holds_a_lambda_slot top
    then next after_value_colon
    else if byte == b',' && top_is top rel_col_bracket
    then next expect_rel_col_spec_req
    else if byte == b',' && separates_elements top
    then next expect_value_req
    else if byte == b';' && top_is top brace
    then next block_stmt_close
    else if is_closer byte
    then close top byte
    else dead

unfoldable pub step_after_name : Option Frame → ℕ → Step
step_after_name top byte =
    if is_ws byte
    then next after_name
    else if byte == b'('
    then push paren expect_value
    else if byte == b'|'
    then next saw_pipe
    else if byte == b':'
    then next after_colon
    else step_after_value top byte

unfoldable pub step_after_member_name : Option Frame → ℕ → Step
step_after_member_name top byte =
    if is_ws byte
    then next after_member_name
    else if byte == b'('
    then push paren expect_value
    else step_after_value top byte

unfoldable pub step_after_arrow_name : ℕ → Step
step_after_arrow_name byte =
    if is_ws byte
    then next after_arrow_name
    else if byte == b'('
    then push paren expect_value
    else dead

unfoldable pub step_after_str_lit : Option Frame → ℕ → Step
step_after_str_lit top byte =
    if is_ws byte
    then next after_str_lit
    else if byte == b'|'
    then next saw_pipe
    else if byte == b':'
    then next after_colon
    else step_after_value top byte

unfoldable pub step_after_rel_col_name : Option Frame → ℕ → Step
step_after_rel_col_name top byte =
    if is_ws byte
    then next after_rel_col_name
    else if byte == b':'
    then next after_rel_col_colon
    else if byte == b'|'
    then dead
    else step_after_value top byte
