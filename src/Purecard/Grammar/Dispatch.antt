-- ===== src/Purecard/Grammar/Dispatch.antt =====
-- crates/pure-analyzer-purecard/src/grammar/pda.rs: the dispatch `step`, one arm for each state.
use pure_analyzer.Shared.{ℕ, false, true, Option}
use pure_analyzer.Purecard.Grammar.State.{
  after_arrow, after_arrow_name, after_binder, after_binder_mult, after_binder_mult_token,
  after_binder_type, after_binder_type_path, after_brace_open, after_colon, after_colon2,
  after_colon_ws, after_dollar, after_dot, after_member_name, after_name,
  after_rel_agg_reduce_binder, after_rel_col_colon, after_rel_col_lambda_binder, after_rel_col_name,
  after_str_lit, after_value, after_value_colon, binder_type_colon, binder_type_colon2, block_stmt,
  block_stmt_close, date_frac, date_sep, date_time_sep, expect_binder, expect_binder_call_close,
  expect_binder_mult, expect_binder_value, expect_brace_binder, expect_lambda_body,
  expect_rel_col_spec, expect_rel_col_spec_req, expect_source, expect_value, expect_value_req,
  in_arrow_ident, in_binder, in_binder_mult, in_binder_type, in_binder_type_path,
  in_binder_value_ident, in_date_frac, in_date_lit, in_date_time, in_exp, in_ident, in_member_ident,
  in_milestone_lit, in_multiplicity, in_number_frac, in_number_int, in_rel_agg_reduce_binder,
  in_rel_col_ident, in_rel_col_lambda_binder, in_rel_col_str_lit, in_source_ident, in_str_lit,
  let_l, let_le, let_let, milestone_l, milestone_la, milestone_lat, milestone_late, milestone_lates,
  need_exp_digit, need_frac_digit, saw_amp, saw_bang, saw_dash, saw_eq, saw_exp, saw_gt, saw_lt,
  saw_num_sign, saw_percent, saw_pipe, saw_tilde, saw_value_pipe, source_colon, source_colon2,
  source_dash, start, State, Frame, Step,
}
use pure_analyzer.Purecard.Grammar.Bytes.{close}
use pure_analyzer.Purecard.Grammar.Hubs.{
  block_stmt_position, rel_col_spec_position, step_after_arrow_name, step_after_brace_open,
  step_after_member_name, step_after_name, step_after_rel_col_name, step_after_str_lit,
  step_after_value, step_expect_source, step_start, value_position,
}
use pure_analyzer.Purecard.Grammar.Lexemes.{
  date_field, milestone_link, step_expect_lambda_body, step_in_arrow_ident, step_in_date_frac,
  step_in_date_lit, step_in_date_time, step_in_exp, step_in_ident, step_in_member_ident,
  step_in_number_frac, step_in_number_int, step_in_rel_col_ident, step_in_rel_col_str_lit,
  step_in_str_lit, step_need_exp_digit, step_need_frac_digit, step_saw_amp, step_saw_bang,
  step_saw_dash, step_saw_eq, step_saw_exp, step_saw_gt, step_saw_lt, step_saw_num_sign,
  step_saw_percent, step_saw_pipe, step_saw_tilde, step_saw_value_pipe,
}
use pure_analyzer.Purecard.Grammar.Binders.{
  source_ident, step_after_arrow, step_after_binder, step_after_binder_mult,
  step_after_binder_mult_token, step_after_binder_type, step_after_binder_type_path,
  step_after_colon, step_after_colon2, step_after_colon_ws, step_after_dollar, step_after_dot,
  step_after_rel_agg_reduce_binder, step_after_rel_col_colon, step_after_rel_col_lambda_binder,
  step_after_value_colon, step_binder_type_colon, step_binder_type_colon2, step_expect_binder,
  step_expect_binder_call_close, step_expect_binder_mult, step_expect_binder_value,
  step_expect_brace_binder, step_in_binder, step_in_binder_mult, step_in_binder_type,
  step_in_binder_type_path, step_in_multiplicity, step_in_rel_agg_reduce_binder,
  step_in_rel_col_lambda_binder, step_let_l, step_let_le, step_let_let, step_source_colon,
  step_source_colon2, step_source_dash,
}

-- The two largest hubs, `value_position` and `step_after_value`, stay shut where `step` is unfolded.
unfoldable pub step : State → Option Frame → ℕ → Step
unfolding block_stmt_position date_field milestone_link rel_col_spec_position source_ident
    step_after_arrow step_after_arrow_name step_after_binder step_after_binder_mult
    step_after_binder_mult_token step_after_binder_type step_after_binder_type_path
    step_after_brace_open step_after_colon step_after_colon2 step_after_colon_ws step_after_dollar
    step_after_dot step_after_member_name step_after_name step_after_rel_agg_reduce_binder
    step_after_rel_col_colon step_after_rel_col_lambda_binder step_after_rel_col_name
    step_after_str_lit step_after_value_colon step_binder_type_colon step_binder_type_colon2
    step_expect_binder step_expect_binder_call_close step_expect_binder_mult
    step_expect_binder_value step_expect_brace_binder step_expect_lambda_body step_expect_source
    step_in_arrow_ident step_in_binder step_in_binder_mult step_in_binder_type
    step_in_binder_type_path step_in_date_frac step_in_date_lit step_in_date_time step_in_exp
    step_in_ident step_in_member_ident step_in_multiplicity step_in_number_frac step_in_number_int
    step_in_rel_agg_reduce_binder step_in_rel_col_ident step_in_rel_col_lambda_binder
    step_in_rel_col_str_lit step_in_str_lit step_let_l step_let_le step_let_let step_need_exp_digit
    step_need_frac_digit step_saw_amp step_saw_bang step_saw_dash step_saw_eq step_saw_exp
    step_saw_gt step_saw_lt step_saw_num_sign step_saw_percent step_saw_pipe step_saw_tilde
    step_saw_value_pipe step_source_colon step_source_colon2 step_source_dash step_start close
step start top byte = step_start byte
step expect_source top byte = step_expect_source byte
step after_brace_open top byte = step_after_brace_open byte
step block_stmt top byte = block_stmt_position top byte false
step block_stmt_close top byte = block_stmt_position top byte true
step in_source_ident top byte = source_ident byte false
step source_colon top byte = step_source_colon byte
step source_colon2 top byte = step_source_colon2 byte
step source_dash top byte = step_source_dash byte
step let_l top byte = step_let_l byte
step let_le top byte = step_let_le byte
step let_let top byte = step_let_let byte
step expect_binder top byte = step_expect_binder byte
step in_binder top byte = step_in_binder byte
step after_binder top byte = step_after_binder byte
step expect_binder_value top byte = step_expect_binder_value byte
step in_binder_value_ident top byte = source_ident byte true
step expect_binder_call_close top byte = step_expect_binder_call_close top byte
step in_multiplicity top byte = step_in_multiplicity top byte
step expect_brace_binder top byte = step_expect_brace_binder byte
step after_colon_ws top byte = step_after_colon_ws byte
step expect_value top byte = value_position top byte true
step expect_value_req top byte = value_position top byte false
step after_value top byte = step_after_value top byte
step after_name top byte = step_after_name top byte
step after_member_name top byte = step_after_member_name top byte
step after_str_lit top byte = step_after_str_lit top byte
step in_ident top byte = step_in_ident top byte
step in_member_ident top byte = step_in_member_ident top byte
step saw_num_sign top byte = step_saw_num_sign byte
step in_number_int top byte = step_in_number_int top byte
step need_frac_digit top byte = step_need_frac_digit byte
step in_number_frac top byte = step_in_number_frac top byte
step saw_exp top byte = step_saw_exp byte
step need_exp_digit top byte = step_need_exp_digit byte
step in_exp top byte = step_in_exp top byte
step (in_str_lit escaped) top byte = step_in_str_lit escaped top byte
step saw_percent top byte = step_saw_percent byte
step in_date_lit top byte = step_in_date_lit top byte
step date_sep top byte = date_field in_date_lit byte
step in_date_time top byte = step_in_date_time top byte
step date_time_sep top byte = date_field in_date_time byte
step date_frac top byte = date_field in_date_frac byte
step in_date_frac top byte = step_in_date_frac top byte
step milestone_l top byte = milestone_link b'a' milestone_la byte
step milestone_la top byte = milestone_link b't' milestone_lat byte
step milestone_lat top byte = milestone_link b'e' milestone_late byte
step milestone_late top byte = milestone_link b's' milestone_lates byte
step milestone_lates top byte = milestone_link b't' in_milestone_lit byte
step in_milestone_lit top byte = step_after_value top byte
step after_dollar top byte = step_after_dollar byte
step after_dot top byte = step_after_dot byte
step after_arrow top byte = step_after_arrow byte
step after_colon top byte = step_after_colon top byte
step after_value_colon top byte = step_after_value_colon byte
step after_colon2 top byte = step_after_colon2 byte
step in_binder_type top byte = step_in_binder_type byte
step after_binder_type top byte = step_after_binder_type byte
step binder_type_colon top byte = step_binder_type_colon byte
step binder_type_colon2 top byte = step_binder_type_colon2 byte
step in_binder_type_path top byte = step_in_binder_type_path byte
step after_binder_type_path top byte = step_after_binder_type_path byte
step expect_binder_mult top byte = step_expect_binder_mult byte
step in_binder_mult top byte = step_in_binder_mult top byte
step after_binder_mult_token top byte = step_after_binder_mult_token top byte
step after_binder_mult top byte = step_after_binder_mult top byte
step expect_lambda_body top byte = step_expect_lambda_body top byte
step saw_dash top byte = step_saw_dash top byte
step saw_pipe top byte = step_saw_pipe top byte
step saw_value_pipe top byte = step_saw_value_pipe byte
step saw_eq top byte = step_saw_eq byte
step saw_bang top byte = step_saw_bang byte
step saw_gt top byte = step_saw_gt top byte
step saw_lt top byte = step_saw_lt top byte
step saw_amp top byte = step_saw_amp byte
step saw_tilde top byte = step_saw_tilde byte
step in_rel_col_ident top byte = step_in_rel_col_ident top byte
step (in_rel_col_str_lit escaped) top byte = step_in_rel_col_str_lit escaped top byte
step after_rel_col_name top byte = step_after_rel_col_name top byte
step expect_rel_col_spec top byte = rel_col_spec_position top byte true
step expect_rel_col_spec_req top byte = rel_col_spec_position top byte false
step after_rel_col_colon top byte = step_after_rel_col_colon byte
step in_rel_col_lambda_binder top byte = step_in_rel_col_lambda_binder byte
step after_rel_col_lambda_binder top byte = step_after_rel_col_lambda_binder byte
step in_arrow_ident top byte = step_in_arrow_ident byte
step after_arrow_name top byte = step_after_arrow_name byte
step in_rel_agg_reduce_binder top byte = step_in_rel_agg_reduce_binder byte
step after_rel_agg_reduce_binder top byte = step_after_rel_agg_reduce_binder byte
