-- ===== src/Purecard/Grammar/Finish.antt =====
-- A way to complete a query from each state: bytes that lead to a completed term.
use Prim.Native.String.{String}
use pure_analyzer.Shared.{true, false, Option, none, some}
use pure_analyzer.Purecard.Grammar.State.{
  after_arrow, after_arrow_name, after_binder, after_binder_mult, after_binder_mult_token,
  after_binder_type, after_binder_type_path, after_brace_open, after_colon, after_colon2,
  after_colon_ws, after_dollar, after_dot, after_member_name, after_name,
  after_rel_agg_reduce_binder, after_rel_col_colon, after_rel_col_lambda_binder, after_rel_col_name,
  after_str_lit, after_value, after_value_colon, binder_type_colon, binder_type_colon2, block_stmt,
  block_stmt_close, date_frac, date_sep, date_time_sep, expect_binder, expect_binder_call_close,
  expect_binder_mult, expect_binder_value, expect_brace_binder, expect_lambda_body,
  expect_rel_col_spec, expect_rel_col_spec_req, expect_source, expect_value, expect_value_req,
  in_arrow_ident, in_binder, in_binder_mult, in_binder_type, in_binder_type_path,
  in_binder_value_ident, in_date_frac, in_date_lit, in_date_time, in_exp, in_ident, in_member_ident,
  in_milestone_lit, in_multiplicity, in_number_frac, in_number_int, in_rel_agg_reduce_binder,
  in_rel_col_ident, in_rel_col_lambda_binder, in_rel_col_str_lit, in_source_ident, in_str_lit,
  let_l, let_le, let_let, milestone_l, milestone_la, milestone_lat, milestone_late, milestone_lates,
  need_exp_digit, need_frac_digit, saw_amp, saw_bang, saw_dash, saw_eq, saw_exp, saw_gt, saw_lt,
  saw_num_sign, saw_percent, saw_pipe, saw_tilde, saw_value_pipe, source_colon, source_colon2,
  source_dash, start, State, Frame, paren, bracket,
}

abbrev pub finish : State → String
finish start = "|X.a+1 "
finish expect_source = "X.a+1 "
finish after_brace_open = "|X.a+1 "
finish block_stmt = "X.a+1 "
finish block_stmt_close = "X.a+1 "
finish in_source_ident = ".a+1 "
finish source_colon = ":X.a+1 "
finish source_colon2 = "X.a+1 "
finish source_dash = ">a()"
finish let_l = ".a+1 "
finish let_le = ".a+1 "
finish let_let = ".a+1 "
finish expect_binder = "a=X.a+1 "
finish in_binder = "=X.a+1 "
finish after_binder = "=X.a+1 "
finish expect_binder_value = "X.a+1 "
finish in_binder_value_ident = ".a+1 "
finish expect_binder_call_close = ")"
finish in_multiplicity = "]"
finish expect_brace_binder = "a+1 "
finish after_colon_ws = "a|1 "
finish expect_value = "1 "
finish expect_value_req = "1 "
finish after_value = ""
finish after_name = "+1 "
finish after_member_name = "+1 "
finish after_str_lit = "+1 "
finish in_ident = "+1 "
finish in_member_ident = "+1 "
finish saw_num_sign = "1 "
finish in_number_int = " "
finish need_frac_digit = "1 "
finish in_number_frac = " "
finish saw_exp = "1 "
finish need_exp_digit = "1 "
finish in_exp = " "
finish (in_str_lit false) = "'+1 "
finish (in_str_lit true) = "+1 "
finish saw_percent = "1 "
finish in_date_lit = " "
finish date_sep = "1 "
finish in_date_time = " "
finish date_time_sep = "1 "
finish date_frac = "1 "
finish in_date_frac = " "
finish milestone_l = "atest "
finish milestone_la = "test "
finish milestone_lat = "est "
finish milestone_late = "st "
finish milestone_lates = "t "
finish in_milestone_lit = " "
finish after_dollar = "a+1 "
finish after_dot = "a+1 "
finish after_arrow = "a()"
finish after_colon = ":a+1 "
finish after_value_colon = "a||1 "
finish after_colon2 = "a+1 "
finish in_binder_type = "|1 "
finish after_binder_type = "|1 "
finish binder_type_colon = ":a[1]|1 "
finish binder_type_colon2 = "a[1]|1 "
finish in_binder_type_path = "[1]|1 "
finish after_binder_type_path = "[1]|1 "
finish expect_binder_mult = "1]|1 "
finish in_binder_mult = "]|1 "
finish after_binder_mult_token = "]|1 "
finish after_binder_mult = "|1 "
finish expect_lambda_body = "1 "
finish saw_dash = "1 "
finish saw_pipe = "|1 "
finish saw_value_pipe = "|1 "
finish saw_eq = "=1 "
finish saw_bang = "=1 "
finish saw_gt = "=1 "
finish saw_lt = "=1 "
finish saw_amp = "&1 "
finish saw_tilde = "a+1 "
finish in_rel_col_ident = "+1 "
finish (in_rel_col_str_lit false) = "'+1 "
finish (in_rel_col_str_lit true) = "+1 "
finish after_rel_col_name = "+1 "
finish expect_rel_col_spec = "a+1 "
finish expect_rel_col_spec_req = "a+1 "
finish after_rel_col_colon = "a||1 "
finish in_rel_col_lambda_binder = "||1 "
finish after_rel_col_lambda_binder = "||1 "
finish in_arrow_ident = "()"
finish after_arrow_name = "()"
finish in_rel_agg_reduce_binder = "||1 "
finish after_rel_agg_reduce_binder = "||1 "

-- The frame that must be open in a state, for the five states inside a bracket that holds one token.
abbrev pub slot : State → Option Frame
slot expect_binder_call_close = some paren
slot in_multiplicity = some bracket
slot expect_binder_mult = some bracket
slot in_binder_mult = some bracket
slot after_binder_mult_token = some bracket
slot _ = none
