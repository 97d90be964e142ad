-- ===== src/Purecard/Grammar/Tests.antt =====
-- Runs of the automaton, and the theorems at concrete streams.
use pure_analyzer.Shared.{ℕ, true, false, some, List, [], ◌∷◌, ◌++◌, ◌≡◌, refl, codes}
use pure_analyzer.Purecard.Grammar.State.{
  expect_value, after_value, in_number_int, in_ident, after_dollar, saw_pipe, paren, group, brace,
  next,
}
use pure_analyzer.Purecard.Grammar.Bytes.{
  is_ws, is_ident_start, is_ident_tail, is_ascii_digit, separates_elements, holds_a_lambda_slot,
}
use pure_analyzer.Purecard.Grammar.Hubs.{value_position, step_after_value}
use pure_analyzer.Purecard.Grammar.Dispatch.{step}
use pure_analyzer.Purecard.Grammar.Pda.{
  ok, err, DeadState, Pda, at, new, last, advance, run, is_accepting, admits, probe,
  completes_a_term,
}
use pure_analyzer.Purecard.Grammar.Names.{name, frame_name}
use pure_analyzer.Purecard.Grammar.Brackets.{
  in_quotes, scan_step, owed_by, view_step, step-scan_step,
}
use pure_analyzer.Purecard.Grammar.Nesting.{outermost, scan, nesting, run-scan, accepted-balanced}
use pure_analyzer.Purecard.Grammar.Partition.{over, probe-admits-over}
use pure_analyzer.Purecard.Grammar.Completion.{completion, completion-accepting}
use pure_analyzer.Purecard.Grammar.Accepting.{
  is_accepting-is_terminal, sum_query, accepts_top_level_number,
}
use pure_analyzer.Purecard.Grammar.Replay.{is_ok, admits-run}
use pure_analyzer.Purecard.Grammar.Frames.{IsFramed, run-IsFramed}
use pure_analyzer.Purecard.Grammar.Numbering.{advance-err_injective}
use pure_analyzer.Purecard.Grammar.Delegation.{opens_refvar_sigil, opens_refvar_sigil-step}

abbrev query : List ℕ
query = codes "|X.all()->filter(x|$x.a=='o)''k')"

abbrev ended : Pda
ended = record { state = after_value; stack = [] }

run-query : run new query ≡ ok ended
unfolding run advance step value_position step_after_value is_ws is_ident_start is_ident_tail
    is_ascii_digit holds_a_lambda_slot separates_elements
run-query = refl

ended_accepting : is_accepting ended ≡ true
unfolding is_accepting step step_after_value completes_a_term is_ws
ended_accepting = refl

accepted-balanced_example : scan outermost query ≡ some outermost
accepted-balanced_example = accepted-balanced query ended run-query ended_accepting

run-scan_example : scan (nesting new) query ≡ some (nesting ended)
run-scan_example = run-scan query new ended run-query

-- `)` dies over an empty stack, but a call's frame would have kept it alive.
probe_closer :
    probe (at after_value) (codes ")") ≡ record { alive = false; consulted_ambient = true }
unfolding probe step step_after_value is_ws
probe_closer = refl

probe-admits-over_example :
    admits (over (at expect_value) (paren ∷ brace ∷ [])) (codes "(1)") ≡ true
unfolding probe step value_position step_after_value is_ws is_ident_start is_ascii_digit
probe-admits-over_example =
    probe-admits-over (at expect_value) (paren ∷ brace ∷ []) (codes "(1)") refl

abbrev open_call : Pda
open_call = record { state = in_ident; stack = paren ∷ [] }

run-open_call : run new (codes "|X.f(a") ≡ ok open_call
unfolding run advance step value_position step_after_value is_ws is_ident_start is_ident_tail
    is_ascii_digit
run-open_call = refl

completion-accepting_example :
    (q : Pda) × (run new (codes "|X.f(a" ++ completion open_call) ≡ ok q) × (is_accepting q ≡ true)
completion-accepting_example = completion-accepting (codes "|X.f(a") open_call run-open_call

step-scan_step_example :
    scan_step false (owed_by (some paren)) b'(' ≡ view_step (step expect_value (some paren) b'(')
unfolding step value_position is_ws is_ident_start is_ascii_digit in_quotes
step-scan_step_example = step-scan_step expect_value (some paren) b'(' (λ h. cc)

is_accepting-is_terminal_example : is_accepting ended ≡ true
is_accepting-is_terminal_example = is_accepting-is_terminal ended

accepts_top_level_number_example :
    (q : Pda) × (run new (sum_query (b'4' ∷ b'2' ∷ [])) ≡ ok q)
    × (q.state ≡ in_number_int)
    × (is_accepting q ≡ true)
unfolding is_ascii_digit
accepts_top_level_number_example = accepts_top_level_number b'4' (b'2' ∷ []) (refl, (refl, tt))

admits-run_example :
    (admits new query ≡ is_ok (run new query)) × ((probe new query).alive ≡ admits new query)
admits-run_example = admits-run new query

run-IsFramed_example : IsFramed open_call
run-IsFramed_example =
    run-IsFramed (codes "|X.f(a") new open_call (record { fresh = λ h. refl; bottom = refl })
      run-open_call

-- A refused closer is reported with the state and the frame that refused it.
abbrev report : DeadState
report = record { state = "AfterValue"; stack_top = "Group" }

abbrev in_group : Pda
in_group = record { state = after_value; stack = group ∷ [] }

advance_mismatched : advance in_group b']' ≡ err report
unfolding advance step step_after_value is_ws name frame_name
advance_mismatched = refl

advance-err_injective_example :
    (in_group.state ≡ in_group.state) × (last in_group.stack ≡ last in_group.stack)
advance-err_injective_example =
    advance-err_injective in_group in_group b']' b']' report advance_mismatched advance_mismatched

opens_refvar_sigil-step_example :
    (opens_refvar_sigil saw_pipe ≡ true → step saw_pipe (some paren) b'$' ≡ next after_dollar)
    × ((top : _) → step saw_pipe top b'$' ≡ next after_dollar → opens_refvar_sigil saw_pipe ≡ true)
opens_refvar_sigil-step_example = opens_refvar_sigil-step saw_pipe
