-- ===== src/Purecard/Grammar/Delegation.antt =====
-- Which states open a `$` sigil.
use pure_analyzer.Shared.{Bool, true, false, Option, some, ◌≡◌, arith}
use pure_analyzer.Purecard.Grammar.State.{
  State, start, in_str_lit, in_rel_col_str_lit, saw_dash, saw_pipe, saw_gt, saw_lt,
  expect_lambda_body, expect_value, expect_value_req, block_stmt, block_stmt_close, after_dollar,
  Frame, paren, next,
}
use pure_analyzer.Purecard.Grammar.Bytes.{
  is_ws, is_ident_start, is_ident_tail, is_ascii_digit, separates_elements, holds_a_lambda_slot,
}
use pure_analyzer.Purecard.Grammar.Hubs.{value_position, step_after_value}
use pure_analyzer.Purecard.Grammar.Dispatch.{step}

unfoldable pub opens_refvar_sigil : State → Bool
opens_refvar_sigil expect_value = true
opens_refvar_sigil expect_value_req = true
opens_refvar_sigil expect_lambda_body = true
opens_refvar_sigil block_stmt = true
opens_refvar_sigil block_stmt_close = true
opens_refvar_sigil saw_dash = true
opens_refvar_sigil saw_pipe = true
opens_refvar_sigil saw_lt = true
opens_refvar_sigil saw_gt = true
opens_refvar_sigil _ = false

-- The listed states are those in which a `$` may open a sigil: under a call's frame it does in each
-- of them, and in any other state it does under no frame.
pub opens_refvar_sigil-step :
    (s : State)
    → (opens_refvar_sigil s ≡ true → step s (some paren) b'$' ≡ next after_dollar)
      × ((top : Option Frame) → step s top b'$' ≡ next after_dollar → opens_refvar_sigil s ≡ true)
unfolding step value_position step_after_value opens_refvar_sigil is_ws is_ident_start is_ident_tail
    is_ascii_digit holds_a_lambda_slot separates_elements
opens_refvar_sigil-step (in_str_lit true) = (λ h. cc, λ top h. ground arith)
opens_refvar_sigil-step (in_str_lit false) = (λ h. cc, λ top h. ground arith)
opens_refvar_sigil-step (in_rel_col_str_lit true) = (λ h. cc, λ top h. ground arith)
opens_refvar_sigil-step (in_rel_col_str_lit false) = (λ h. cc, λ top h. ground arith)
opens_refvar_sigil-step start = (λ h. cc, λ top h. ground arith)
opens_refvar_sigil-step _ = (λ h. ground arith, λ top h. ground arith)
