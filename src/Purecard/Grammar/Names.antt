-- ===== src/Purecard/Grammar/Names.antt =====
-- crates/pure-analyzer-purecard/src/grammar/pda.rs: `State::name` and `Frame::name`.
use Prim.Native.String.{String}
use pure_analyzer.Shared.{true, false}
use pure_analyzer.Purecard.Grammar.State.{
  State, start, expect_source, after_brace_open, block_stmt, block_stmt_close, in_source_ident,
  source_colon, source_colon2, source_dash, let_l, let_le, let_let, expect_binder, in_binder,
  after_binder, in_multiplicity, expect_brace_binder, after_colon_ws, expect_value,
  expect_value_req, after_value, after_name, after_member_name, after_str_lit, in_ident,
  in_member_ident, saw_num_sign, in_number_int, need_frac_digit, in_number_frac, saw_exp,
  need_exp_digit, in_exp, saw_percent, in_date_lit, date_sep, in_date_time, date_time_sep,
  date_frac, in_date_frac, milestone_l, milestone_la, milestone_lat, milestone_late,
  milestone_lates, in_milestone_lit, after_dollar, after_dot, after_arrow, after_colon,
  after_value_colon, after_colon2, in_binder_type, after_binder_type, binder_type_colon,
  binder_type_colon2, in_binder_type_path, after_binder_type_path, expect_binder_mult,
  in_binder_mult, after_binder_mult_token, after_binder_mult, expect_lambda_body, saw_dash,
  saw_pipe, saw_value_pipe, saw_eq, saw_bang, saw_gt, saw_lt, saw_amp, saw_tilde,
  expect_binder_value, in_binder_value_ident, expect_binder_call_close, in_rel_col_ident,
  after_rel_col_name, expect_rel_col_spec, expect_rel_col_spec_req, after_rel_col_colon,
  in_rel_col_lambda_binder, after_rel_col_lambda_binder, in_arrow_ident, after_arrow_name,
  in_rel_agg_reduce_binder, after_rel_agg_reduce_binder, in_str_lit, in_rel_col_str_lit, Frame,
  paren, group, bracket, brace, brace_lambda, rel_col_bracket,
}

unfoldable pub name : State → String
name start = "Start"
name expect_source = "ExpectSource"
name after_brace_open = "AfterBraceOpen"
name block_stmt = "BlockStmt"
name block_stmt_close = "BlockStmtClose"
name in_source_ident = "InSourceIdent"
name source_colon = "SourceColon"
name source_colon2 = "SourceColon2"
name source_dash = "SourceDash"
name let_l = "LetL"
name let_le = "LetLe"
name let_let = "LetLet"
name expect_binder = "ExpectBinder"
name in_binder = "InBinder"
name after_binder = "AfterBinder"
name expect_binder_value = "ExpectBinderValue"
name in_binder_value_ident = "InBinderValueIdent"
name expect_binder_call_close = "ExpectBinderCallClose"
name in_multiplicity = "InMultiplicity"
name expect_brace_binder = "ExpectBraceBinder"
name after_colon_ws = "AfterColonWs"
name expect_value = "ExpectValue"
name expect_value_req = "ExpectValueReq"
name after_value = "AfterValue"
name after_name = "AfterName"
name after_member_name = "AfterMemberName"
name after_str_lit = "AfterStrLit"
name in_ident = "InIdent"
name in_member_ident = "InMemberIdent"
name saw_num_sign = "SawNumSign"
name in_number_int = "InNumberInt"
name need_frac_digit = "NeedFracDigit"
name in_number_frac = "InNumberFrac"
name saw_exp = "SawExp"
name need_exp_digit = "NeedExpDigit"
name in_exp = "InExp"
name (in_str_lit false) = "InStrLit"
name (in_str_lit true) = "InStrLit(pendingQuote)"
name saw_percent = "SawPercent"
name in_date_lit = "InDateLit"
name date_sep = "DateSep"
name in_date_time = "InDateTime"
name date_time_sep = "DateTimeSep"
name date_frac = "DateFrac"
name in_date_frac = "InDateFrac"
name milestone_l = "MilestoneL"
name milestone_la = "MilestoneLa"
name milestone_lat = "MilestoneLat"
name milestone_late = "MilestoneLate"
name milestone_lates = "MilestoneLates"
name in_milestone_lit = "InMilestoneLit"
name after_dollar = "AfterDollar"
name after_dot = "AfterDot"
name after_arrow = "AfterArrow"
name after_colon = "AfterColon"
name after_value_colon = "AfterValueColon"
name after_colon2 = "AfterColon2"
name in_binder_type = "InBinderType"
name after_binder_type = "AfterBinderType"
name binder_type_colon = "BinderTypeColon"
name binder_type_colon2 = "BinderTypeColon2"
name in_binder_type_path = "InBinderTypePath"
name after_binder_type_path = "AfterBinderTypePath"
name expect_binder_mult = "ExpectBinderMult"
name in_binder_mult = "InBinderMult"
name after_binder_mult_token = "AfterBinderMultToken"
name after_binder_mult = "AfterBinderMult"
name expect_lambda_body = "ExpectLambdaBody"
name saw_dash = "SawDash"
name saw_pipe = "SawPipe"
name saw_value_pipe = "SawValuePipe"
name saw_eq = "SawEq"
name saw_bang = "SawBang"
name saw_gt = "SawGt"
name saw_lt = "SawLt"
name saw_amp = "SawAmp"
name saw_tilde = "SawTilde"
name in_rel_col_ident = "InRelColIdent"
name (in_rel_col_str_lit false) = "InRelColStrLit"
name (in_rel_col_str_lit true) = "InRelColStrLit(pendingQuote)"
name after_rel_col_name = "AfterRelColName"
name expect_rel_col_spec = "ExpectRelColSpec"
name expect_rel_col_spec_req = "ExpectRelColSpecReq"
name after_rel_col_colon = "AfterRelColColon"
name in_rel_col_lambda_binder = "InRelColLambdaBinder"
name after_rel_col_lambda_binder = "AfterRelColLambdaBinder"
name in_arrow_ident = "InArrowIdent"
name after_arrow_name = "AfterArrowName"
name in_rel_agg_reduce_binder = "InRelAggReduceBinder"
name after_rel_agg_reduce_binder = "AfterRelAggReduceBinder"

unfoldable pub frame_name : Frame → String
frame_name paren = "Paren"
frame_name group = "Group"
frame_name bracket = "Bracket"
frame_name brace = "Brace"
frame_name brace_lambda = "BraceLambda"
frame_name rel_col_bracket = "RelColBracket"
