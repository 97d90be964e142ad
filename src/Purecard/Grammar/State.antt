-- ===== src/Purecard/Grammar/State.antt =====
-- crates/pure-analyzer-purecard/src/grammar/pda.rs: the automaton's states, frames and steps.
-- `State::InStrLit { escaped }` and `State::InRelColStrLit { escaped }` carry their flag.
use pure_analyzer.Shared.{Bool, true, false, Option, none, some}

pub data State : Type 0 where
  start expect_source after_brace_open block_stmt block_stmt_close in_source_ident source_colon :
      State
  source_colon2 source_dash let_l let_le let_let expect_binder in_binder after_binder : State
  in_multiplicity expect_brace_binder after_colon_ws expect_value expect_value_req after_value :
      State
  after_name after_member_name after_str_lit in_ident in_member_ident saw_num_sign : State
  in_number_int need_frac_digit in_number_frac saw_exp need_exp_digit in_exp saw_percent : State
  in_date_lit date_sep in_date_time date_time_sep date_frac in_date_frac milestone_l : State
  milestone_la milestone_lat milestone_late milestone_lates in_milestone_lit after_dollar : State
  after_dot after_arrow after_colon after_value_colon after_colon2 in_binder_type : State
  after_binder_type binder_type_colon binder_type_colon2 in_binder_type_path : State
  after_binder_type_path expect_binder_mult in_binder_mult after_binder_mult_token : State
  after_binder_mult expect_lambda_body saw_dash saw_pipe saw_value_pipe saw_eq saw_bang saw_gt :
      State
  saw_lt saw_amp saw_tilde expect_binder_value in_binder_value_ident expect_binder_call_close :
      State
  in_rel_col_ident after_rel_col_name expect_rel_col_spec expect_rel_col_spec_req : State
  after_rel_col_colon in_rel_col_lambda_binder after_rel_col_lambda_binder in_arrow_ident : State
  after_arrow_name in_rel_agg_reduce_binder after_rel_agg_reduce_binder : State
  in_str_lit in_rel_col_str_lit : Bool → State

pub data Frame : Type 0 where
  paren group bracket brace brace_lambda rel_col_bracket : Frame

pub data Step : Type 0 where
  next : State → Step
  push : Frame → State → Step
  pop : State → Step
  dead : Step

-- The derived equality of frames.
unfoldable pub frame_eq : Frame → Frame → Bool
frame_eq paren paren = true
frame_eq group group = true
frame_eq bracket bracket = true
frame_eq brace brace = true
frame_eq brace_lambda brace_lambda = true
frame_eq rel_col_bracket rel_col_bracket = true
frame_eq _ _ = false

-- `stack_top == Some(f)`
unfoldable pub top_is : Option Frame → Frame → Bool
unfolding frame_eq
top_is none f = false
top_is (some g) f = frame_eq g f
