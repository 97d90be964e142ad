-- ===== src/Purecard/Grammar/Index.antt =====
-- crates/pure-analyzer-purecard/src/grammar/pda.rs: `State::index`, `State::COUNT` and `ALL_STATES`,
-- the dense numbering by which the per-state mask cache is addressed.
use pure_analyzer.Shared.{ℕ, true, false, List, [], ◌∷◌}
use pure_analyzer.Purecard.Grammar.State.{
  State, start, expect_source, after_brace_open, block_stmt, block_stmt_close, in_source_ident,
  source_colon, source_colon2, source_dash, let_l, let_le, let_let, expect_binder, in_binder,
  after_binder, in_multiplicity, expect_brace_binder, after_colon_ws, expect_value,
  expect_value_req, after_value, after_name, after_member_name, after_str_lit, in_ident,
  in_member_ident, saw_num_sign, in_number_int, need_frac_digit, in_number_frac, saw_exp,
  need_exp_digit, in_exp, saw_percent, in_date_lit, date_sep, in_date_time, date_time_sep,
  date_frac, in_date_frac, milestone_l, milestone_la, milestone_lat, milestone_late,
  milestone_lates, in_milestone_lit, after_dollar, after_dot, after_arrow, after_colon,
  after_value_colon, after_colon2, in_binder_type, after_binder_type, binder_type_colon,
  binder_type_colon2, in_binder_type_path, after_binder_type_path, expect_binder_mult,
  in_binder_mult, after_binder_mult_token, after_binder_mult, expect_lambda_body, saw_dash,
  saw_pipe, saw_value_pipe, saw_eq, saw_bang, saw_gt, saw_lt, saw_amp, saw_tilde,
  expect_binder_value, in_binder_value_ident, expect_binder_call_close, in_rel_col_ident,
  after_rel_col_name, expect_rel_col_spec, expect_rel_col_spec_req, after_rel_col_colon,
  in_rel_col_lambda_binder, after_rel_col_lambda_binder, in_arrow_ident, after_arrow_name,
  in_rel_agg_reduce_binder, after_rel_agg_reduce_binder, in_str_lit, in_rel_col_str_lit,
}

abbrev pub state_count : ℕ
state_count = 90

unfoldable pub index : State → ℕ
index start = 0
index expect_source = 1
index after_brace_open = 2
index block_stmt = 3
index block_stmt_close = 4
index in_source_ident = 5
index source_colon = 6
index source_colon2 = 7
index source_dash = 8
index let_l = 9
index let_le = 10
index let_let = 11
index expect_binder = 12
index in_binder = 13
index after_binder = 14
index in_multiplicity = 15
index expect_brace_binder = 16
index after_colon_ws = 17
index expect_value = 18
index expect_value_req = 19
index after_value = 20
index in_ident = 21
index saw_num_sign = 22
index in_number_int = 23
index need_frac_digit = 24
index in_number_frac = 25
index (in_str_lit false) = 26
index (in_str_lit true) = 27
index saw_percent = 28
index in_date_lit = 29
index after_dollar = 30
index after_dot = 31
index after_arrow = 32
index after_colon = 33
index after_colon2 = 34
index saw_dash = 35
index saw_pipe = 36
index saw_eq = 37
index saw_bang = 38
index saw_gt = 39
index saw_lt = 40
index saw_amp = 41
index in_milestone_lit = 42
index saw_tilde = 43
index saw_exp = 44
index need_exp_digit = 45
index in_exp = 46
index after_name = 47
index milestone_l = 48
index milestone_la = 49
index milestone_lat = 50
index milestone_late = 51
index milestone_lates = 52
index in_binder_type = 53
index after_binder_type = 54
index binder_type_colon = 55
index binder_type_colon2 = 56
index expect_binder_mult = 57
index in_binder_mult = 58
index after_binder_mult_token = 59
index after_binder_mult = 60
index expect_lambda_body = 61
index after_member_name = 62
index in_member_ident = 63
index after_str_lit = 64
index date_sep = 65
index in_date_time = 66
index date_time_sep = 67
index date_frac = 68
index in_date_frac = 69
index saw_value_pipe = 70
index in_binder_type_path = 71
index after_binder_type_path = 72
index after_value_colon = 73
index expect_binder_value = 74
index in_binder_value_ident = 75
index expect_binder_call_close = 76
index in_rel_col_ident = 77
index (in_rel_col_str_lit false) = 78
index (in_rel_col_str_lit true) = 79
index after_rel_col_name = 80
index expect_rel_col_spec = 81
index expect_rel_col_spec_req = 82
index after_rel_col_colon = 83
index in_rel_col_lambda_binder = 84
index after_rel_col_lambda_binder = 85
index in_arrow_ident = 86
index after_arrow_name = 87
index in_rel_agg_reduce_binder = 88
index after_rel_agg_reduce_binder = 89

abbrev pub all_states : List State
all_states =
    start
    ∷ expect_source
    ∷ after_brace_open
    ∷ block_stmt
    ∷ block_stmt_close
    ∷ in_source_ident
    ∷ source_colon
    ∷ source_colon2
    ∷ source_dash
    ∷ let_l
    ∷ let_le
    ∷ let_let
    ∷ expect_binder
    ∷ in_binder
    ∷ after_binder
    ∷ expect_binder_value
    ∷ in_binder_value_ident
    ∷ expect_binder_call_close
    ∷ in_multiplicity
    ∷ expect_brace_binder
    ∷ after_colon_ws
    ∷ expect_value
    ∷ expect_value_req
    ∷ after_value
    ∷ after_name
    ∷ after_member_name
    ∷ after_str_lit
    ∷ in_ident
    ∷ in_member_ident
    ∷ saw_num_sign
    ∷ in_number_int
    ∷ need_frac_digit
    ∷ in_number_frac
    ∷ saw_exp
    ∷ need_exp_digit
    ∷ in_exp
    ∷ in_str_lit false
    ∷ in_str_lit true
    ∷ saw_percent
    ∷ in_date_lit
    ∷ date_sep
    ∷ in_date_time
    ∷ date_time_sep
    ∷ date_frac
    ∷ in_date_frac
    ∷ milestone_l
    ∷ milestone_la
    ∷ milestone_lat
    ∷ milestone_late
    ∷ milestone_lates
    ∷ in_milestone_lit
    ∷ after_dollar
    ∷ after_dot
    ∷ after_arrow
    ∷ after_colon
    ∷ after_value_colon
    ∷ after_colon2
    ∷ in_binder_type
    ∷ after_binder_type
    ∷ binder_type_colon
    ∷ binder_type_colon2
    ∷ in_binder_type_path
    ∷ after_binder_type_path
    ∷ expect_binder_mult
    ∷ in_binder_mult
    ∷ after_binder_mult_token
    ∷ after_binder_mult
    ∷ expect_lambda_body
    ∷ saw_dash
    ∷ saw_pipe
    ∷ saw_value_pipe
    ∷ saw_eq
    ∷ saw_bang
    ∷ saw_gt
    ∷ saw_lt
    ∷ saw_amp
    ∷ saw_tilde
    ∷ in_rel_col_ident
    ∷ in_rel_col_str_lit false
    ∷ in_rel_col_str_lit true
    ∷ after_rel_col_name
    ∷ expect_rel_col_spec
    ∷ expect_rel_col_spec_req
    ∷ after_rel_col_colon
    ∷ in_rel_col_lambda_binder
    ∷ after_rel_col_lambda_binder
    ∷ in_arrow_ident
    ∷ after_arrow_name
    ∷ in_rel_agg_reduce_binder
    ∷ after_rel_agg_reduce_binder
    ∷ []
