-- ===== src/Purecard/Grammar/Accepting.antt =====
-- Where a query may end, listed state by state.
use pure_analyzer.Shared.{
  ℕ, Bool, true, false, ◌&&◌, none, List, [], ◌∷◌, ◌≡◌, refl, ap, ◌∙◌, arith,
}
use pure_analyzer.Purecard.Grammar.State.{
  State, after_value, after_name, after_member_name, after_str_lit, after_rel_col_name, in_ident,
  in_member_ident, in_rel_col_ident, in_number_int, in_number_frac, in_exp, in_date_lit,
  in_date_time, in_date_frac, in_milestone_lit, in_str_lit, in_rel_col_str_lit, expect_value_req,
}
use pure_analyzer.Purecard.Grammar.Bytes.{
  is_ws, is_ident_start, is_ident_tail, is_ascii_digit, separates_elements, holds_a_lambda_slot,
  value_boundary,
}
use pure_analyzer.Purecard.Grammar.Hubs.{value_position, step_after_value}
use pure_analyzer.Purecard.Grammar.Dispatch.{step}
use pure_analyzer.Purecard.Grammar.Pda.{
  ok, Pda, new, run, advance, is_empty, is_accepting, completes_a_term, lands_on_a_term,
}

-- The states in which the bytes read so far end in a whole term: a completed term, or a lexeme that
-- may end where it stands.
abbrev pub is_terminal : State → Bool
is_terminal after_value = true
is_terminal after_name = true
is_terminal after_member_name = true
is_terminal after_str_lit = true
is_terminal after_rel_col_name = true
is_terminal in_ident = true
is_terminal in_member_ident = true
is_terminal in_rel_col_ident = true
is_terminal in_number_int = true
is_terminal in_number_frac = true
is_terminal in_exp = true
is_terminal in_date_lit = true
is_terminal in_date_time = true
is_terminal in_date_frac = true
is_terminal in_milestone_lit = true
is_terminal (in_str_lit escaped) = escaped
is_terminal (in_rel_col_str_lit escaped) = escaped
is_terminal _ = false

lands-is_terminal : (s : State) → lands_on_a_term (step s none value_boundary) ≡ is_terminal s
unfolding step value_position step_after_value completes_a_term is_ws is_ident_start is_ident_tail
    is_ascii_digit holds_a_lambda_slot separates_elements
lands-is_terminal (in_str_lit true) = refl
lands-is_terminal (in_str_lit false) = refl
lands-is_terminal (in_rel_col_str_lit true) = refl
lands-is_terminal (in_rel_col_str_lit false) = refl
lands-is_terminal _ = refl

-- A configuration is accepting exactly if no frame is open and its state is one of the listed ones.
pub is_accepting-is_terminal :
    (p : Pda) → is_accepting p ≡ (is_empty p.stack && is_terminal p.state)
unfolding is_accepting
is_accepting-is_terminal p = ap (λ b. is_empty p.stack && b) (lands-is_terminal p.state)

abbrev pub AllDigits : List ℕ → Type 0
AllDigits [] = Unit
AllDigits (d ∷ ds) = (is_ascii_digit d ≡ true) × AllDigits ds

abbrev number_at_top : Pda
number_at_top = record { state = in_number_int; stack = [] }

run_digits : (ds : List ℕ) → AllDigits ds → run number_at_top ds ≡ ok number_at_top
unfolding run advance step
run_digits [] h = refl
run_digits (d ∷ ds) h = ground (arith, run_digits ds h.1)

-- The query `|X.a+` followed by a number: the number stands over the empty stack.
abbrev pub sum_query : List ℕ → List ℕ
sum_query ds = b'|' ∷ b'X' ∷ b'.' ∷ b'a' ∷ b'+' ∷ ds

run_sum :
    (ds : List ℕ)
    → run new (sum_query ds) ≡ run (record { state = expect_value_req; stack = [] }) ds
unfolding run advance step step_after_value is_ws is_ident_start is_ident_tail
run_sum ds = refl

first_digit :
    (d : ℕ)
    → is_ascii_digit d ≡ true
    → advance (record { state = expect_value_req; stack = [] }) d ≡ ok number_at_top
unfolding advance step value_position is_ws is_ident_start is_ascii_digit
first_digit d h = ground arith

run_first :
    (d : ℕ) (ds : List ℕ)
    → AllDigits (d ∷ ds)
    → run (record { state = expect_value_req; stack = [] }) (d ∷ ds) ≡ ok number_at_top
unfolding run
run_first d ds h = ground (arith, first_digit d h.0, run_digits ds h.1)

-- The query `sum_query` makes of any number of one digit or more is accepted, in the state of a number
-- and with no frame open.
pub accepts_top_level_number :
    (d : ℕ) (ds : List ℕ)
    → AllDigits (d ∷ ds)
    → (q : Pda) × (run new (sum_query (d ∷ ds)) ≡ ok q)
      × (q.state ≡ in_number_int)
      × (is_accepting q ≡ true)
unfolding is_accepting step step_after_value completes_a_term is_ws is_ascii_digit
accepts_top_level_number d ds h = (number_at_top, run_sum (d ∷ ds) ∙ run_first d ds h, refl, refl)
