-- ===== src/Purecard/Grammar/Binders.antt =====
-- crates/pure-analyzer-purecard/src/grammar/pda.rs: sources, `let` binders, typed binders, navigation
-- and the arm-R column binders.
use pure_analyzer.Shared.{ℕ, Bool, false, not, ◌&&◌, Option, ◌==◌, if◌then◌else◌}
use pure_analyzer.Purecard.Grammar.State.{
  in_source_ident, source_colon, source_colon2, source_dash, let_le, let_let, expect_binder,
  in_binder, after_binder, expect_brace_binder, after_colon_ws, expect_binder_value,
  in_binder_value_ident, expect_binder_call_close, in_ident, in_member_ident, saw_percent,
  after_dot, after_arrow, after_colon2, in_binder_type, after_binder_type, binder_type_colon,
  binder_type_colon2, in_binder_type_path, after_binder_type_path, expect_binder_mult,
  in_binder_mult, after_binder_mult_token, after_binder_mult, expect_lambda_body, saw_pipe,
  after_rel_col_colon, in_rel_col_lambda_binder, after_rel_col_lambda_binder, in_arrow_ident,
  after_value_colon, in_rel_agg_reduce_binder, after_rel_agg_reduce_binder, in_str_lit, Frame,
  paren, bracket, brace_lambda, Step, next, push, dead, top_is,
}
use pure_analyzer.Purecard.Grammar.Bytes.{
  is_ws, is_ascii_digit, is_ident_start, is_ident_tail, holds_a_lambda_slot, close, close_to,
}

unfoldable pub source_ident : ℕ → Bool → Step
source_ident byte allow_call =
    if is_ident_tail byte
    then next (if allow_call then in_binder_value_ident else in_source_ident)
    else if byte == b'.'
    then next after_dot
    else if byte == b'-'
    then next source_dash
    else if byte == b':'
    then next source_colon
    else if byte == b'(' && allow_call
    then push paren expect_binder_call_close
    else dead

unfoldable pub step_source_colon : ℕ → Step
step_source_colon byte = if byte == b':' then next source_colon2 else dead

unfoldable pub step_source_colon2 : ℕ → Step
step_source_colon2 byte = if is_ident_start byte then next in_source_ident else dead

unfoldable pub step_source_dash : ℕ → Step
step_source_dash byte = if byte == b'>' then next after_arrow else dead

unfoldable pub step_let_l : ℕ → Step
step_let_l byte = if byte == b'e' then next let_le else source_ident byte false

unfoldable pub step_let_le : ℕ → Step
step_let_le byte = if byte == b't' then next let_let else source_ident byte false

unfoldable pub step_let_let : ℕ → Step
step_let_let byte = if is_ws byte then next expect_binder else source_ident byte false

unfoldable pub step_expect_binder : ℕ → Step
step_expect_binder byte =
    if is_ws byte then next expect_binder else if is_ident_start byte then next in_binder else dead

unfoldable pub step_in_binder : ℕ → Step
step_in_binder byte =
    if is_ident_tail byte
    then next in_binder
    else if is_ws byte
    then next after_binder
    else if byte == b'='
    then next expect_binder_value
    else dead

unfoldable pub step_after_binder : ℕ → Step
step_after_binder byte =
    if is_ws byte
    then next after_binder
    else if byte == b'='
    then next expect_binder_value
    else dead

unfoldable pub step_expect_binder_value : ℕ → Step
step_expect_binder_value byte =
    if is_ws byte
    then next expect_binder_value
    else if is_ident_start byte
    then next in_binder_value_ident
    else if byte == b'%'
    then next saw_percent
    else dead

unfoldable pub step_expect_binder_call_close : Option Frame → ℕ → Step
step_expect_binder_call_close top byte =
    if is_ws byte
    then next expect_binder_call_close
    else if byte == b')'
    then close top byte
    else dead

unfoldable pub step_in_multiplicity : Option Frame → ℕ → Step
step_in_multiplicity top byte = if byte == b']' then close top byte else dead

unfoldable pub step_expect_brace_binder : ℕ → Step
step_expect_brace_binder byte =
    if is_ws byte
    then next expect_brace_binder
    else if is_ident_start byte
    then next in_ident
    else dead

unfoldable pub step_after_dollar : ℕ → Step
step_after_dollar byte = if is_ident_start byte then next in_member_ident else dead

unfoldable pub step_after_dot : ℕ → Step
step_after_dot byte =
    if is_ws byte
    then next after_dot
    else if is_ident_start byte
    then next in_member_ident
    else if byte == b'\''
    then next (in_str_lit false)
    else dead

unfoldable pub step_after_arrow : ℕ → Step
step_after_arrow byte =
    if is_ws byte
    then next after_arrow
    else if is_ident_start byte
    then next in_arrow_ident
    else dead

unfoldable pub step_after_colon : Option Frame → ℕ → Step
step_after_colon top byte =
    if byte == b':'
    then next after_colon2
    else if not (holds_a_lambda_slot top)
    then dead
    else if is_ws byte
    then next after_colon_ws
    else if is_ident_start byte
    then next in_binder_type
    else if byte == b'{'
    then push brace_lambda expect_brace_binder
    else dead

unfoldable pub step_after_colon_ws : ℕ → Step
step_after_colon_ws byte =
    if is_ws byte
    then next after_colon_ws
    else if is_ident_start byte
    then next in_binder_type
    else if byte == b'{'
    then push brace_lambda expect_brace_binder
    else dead

unfoldable pub step_after_colon2 : ℕ → Step
step_after_colon2 byte = if is_ident_start byte then next in_ident else dead

unfoldable pub step_in_binder_type : ℕ → Step
step_in_binder_type byte =
    if is_ident_tail byte
    then next in_binder_type
    else if byte == b':'
    then next binder_type_colon
    else if is_ws byte
    then next after_binder_type
    else if byte == b'['
    then push bracket expect_binder_mult
    else if byte == b'|'
    then next expect_lambda_body
    else dead

unfoldable pub step_after_binder_type : ℕ → Step
step_after_binder_type byte =
    if is_ws byte
    then next after_binder_type
    else if byte == b':'
    then next binder_type_colon
    else if byte == b'['
    then push bracket expect_binder_mult
    else if byte == b'|'
    then next expect_lambda_body
    else dead

unfoldable pub step_binder_type_colon : ℕ → Step
step_binder_type_colon byte = if byte == b':' then next binder_type_colon2 else dead

unfoldable pub step_binder_type_colon2 : ℕ → Step
step_binder_type_colon2 byte = if is_ident_start byte then next in_binder_type_path else dead

unfoldable pub step_in_binder_type_path : ℕ → Step
step_in_binder_type_path byte =
    if is_ident_tail byte
    then next in_binder_type_path
    else if byte == b':'
    then next binder_type_colon
    else if is_ws byte
    then next after_binder_type_path
    else if byte == b'['
    then push bracket expect_binder_mult
    else dead

unfoldable pub step_after_binder_type_path : ℕ → Step
step_after_binder_type_path byte =
    if is_ws byte
    then next after_binder_type_path
    else if byte == b':'
    then next binder_type_colon
    else if byte == b'['
    then push bracket expect_binder_mult
    else dead

unfoldable pub step_expect_binder_mult : ℕ → Step
step_expect_binder_mult byte =
    if is_ws byte
    then next expect_binder_mult
    else if is_ascii_digit byte
    then next in_binder_mult
    else if byte == b'*'
    then next after_binder_mult_token
    else dead

unfoldable pub step_in_binder_mult : Option Frame → ℕ → Step
step_in_binder_mult top byte =
    if is_ascii_digit byte
    then next in_binder_mult
    else if is_ws byte
    then next after_binder_mult_token
    else if byte == b']'
    then close_to top byte after_binder_mult
    else dead

unfoldable pub step_after_binder_mult_token : Option Frame → ℕ → Step
step_after_binder_mult_token top byte =
    if is_ws byte
    then next after_binder_mult_token
    else if byte == b']'
    then close_to top byte after_binder_mult
    else dead

unfoldable pub step_after_binder_mult : Option Frame → ℕ → Step
unfolding top_is
step_after_binder_mult top byte =
    if is_ws byte
    then next after_binder_mult
    else if byte == b'|'
    then next expect_lambda_body
    else if byte == b',' && top_is top brace_lambda
    then next expect_brace_binder
    else dead

unfoldable pub step_after_rel_col_colon : ℕ → Step
step_after_rel_col_colon byte =
    if is_ws byte
    then next after_rel_col_colon
    else if byte == b'{'
    then push brace_lambda expect_brace_binder
    else if is_ident_start byte
    then next in_rel_col_lambda_binder
    else dead

unfoldable pub step_after_rel_col_lambda_binder : ℕ → Step
step_after_rel_col_lambda_binder byte =
    if is_ws byte
    then next after_rel_col_lambda_binder
    else if byte == b'|'
    then next saw_pipe
    else dead

unfoldable pub step_in_rel_col_lambda_binder : ℕ → Step
unfolding step_after_rel_col_lambda_binder
step_in_rel_col_lambda_binder byte =
    if is_ident_tail byte
    then next in_rel_col_lambda_binder
    else step_after_rel_col_lambda_binder byte

unfoldable pub step_after_value_colon : ℕ → Step
step_after_value_colon byte =
    if is_ws byte
    then next after_value_colon
    else if is_ident_start byte
    then next in_rel_agg_reduce_binder
    else dead

unfoldable pub step_after_rel_agg_reduce_binder : ℕ → Step
step_after_rel_agg_reduce_binder byte =
    if is_ws byte
    then next after_rel_agg_reduce_binder
    else if byte == b'|'
    then next saw_pipe
    else dead

unfoldable pub step_in_rel_agg_reduce_binder : ℕ → Step
unfolding step_after_rel_agg_reduce_binder
step_in_rel_agg_reduce_binder byte =
    if is_ident_tail byte
    then next in_rel_agg_reduce_binder
    else step_after_rel_agg_reduce_binder byte
