-- ===== src/Purecard/Grammar/Completion.antt =====
-- No stream is a dead end: whatever the automaton has taken can be completed to an accepted query.
use pure_analyzer.Shared.{
  ℕ, Bool, true, false, Option, none, some, List, [], ◌∷◌, ◌++◌, ◌≡◌, refl, ◌∙◌, arith, map, codes,
}
use pure_analyzer.Purecard.Grammar.State.{
  State, expect_value, after_value, in_multiplicity, expect_binder_call_close, expect_binder_mult,
  in_binder_mult, after_binder_mult_token, Frame, paren, group, bracket, brace, brace_lambda,
  rel_col_bracket, Step, next, push, pop, dead, in_str_lit, in_rel_col_str_lit,
}
use pure_analyzer.Purecard.Grammar.Bytes.{
  is_ws, is_ident_start, is_ident_tail, is_ascii_digit, close,
}
use pure_analyzer.Purecard.Grammar.Hubs.{value_position, step_after_value}
use pure_analyzer.Purecard.Grammar.Dispatch.{step}
use pure_analyzer.Purecard.Grammar.Pda.{
  Result, ok, err, Pda, new, last, popped, then_run, advance, run, is_accepting, completes_a_term,
}
use pure_analyzer.Purecard.Grammar.Brackets.{closer}
use pure_analyzer.Purecard.Grammar.Finish.{finish, slot}

-- The frame that the state needs is the top one.
abbrev fits : Option Frame → Option Frame → Bool
fits none top = true
fits (some paren) (some paren) = true
fits (some bracket) (some bracket) = true
fits (some _) _ = false

abbrev keeps : Option Frame → Step → Bool
keeps top (next t) = fits (slot t) top
keeps top (push f t) = fits (slot t) (some f)
keeps top (pop t) = fits (slot t) none
keeps top dead = true

value_position_keeps :
    (top : Option Frame) (b : ℕ) (allow : Bool) → keeps top (value_position top b allow) ≡ true
unfolding value_position close
value_position_keeps top b allow = ground arith

step_after_value_keeps : (top : Option Frame) (b : ℕ) → keeps top (step_after_value top b) ≡ true
unfolding step_after_value close
step_after_value_keeps top b = ground arith

step_keeps :
    (s : State) (top : Option Frame) (b : ℕ)
    → fits (slot s) top ≡ true
    → keeps top (step s top b) ≡ true
unfolding step
step_keeps expect_value top b h = value_position_keeps top b true
step_keeps _ top b h =
    ground (arith, value_position_keeps top b false, step_after_value_keeps top b)

abbrev Slotted : Pda → Type 0
Slotted p = fits (slot p.state) (last p.stack) ≡ true

fits-none : (o top : Option Frame) → fits o none ≡ true → fits o top ≡ true
fits-none none top h = refl
fits-none (some paren) top h = cc
fits-none (some _) top h = cc

advance-Slotted : (p q : Pda) (b : ℕ) → Slotted p → advance p b ≡ ok q → Slotted q
unfolding advance
advance-Slotted p q b v h =
    ground (
      arith,
      step_keeps p.state (last p.stack) b v,
      fits-none (slot q.state) (last (popped p.stack)),
    )

run-Slotted : (bs : List ℕ) (p q : Pda) → Slotted p → run p bs ≡ ok q → Slotted q
unfolding run
run-Slotted [] p q v h = ground arith
run-Slotted (b ∷ bs) p q v h = after_step (advance p b) refl h (λ m w k. run-Slotted bs m q w k)
  where
    after_step :
        (r : Result Pda)
        → advance p b ≡ r
        → then_run (λ m. run m bs) r ≡ ok q
        → ((m : Pda) → Slotted m → run m bs ≡ ok q → Slotted q)
        → Slotted q
    after_step (ok m) e k ih = ih m (advance-Slotted p m b v e) k
    after_step (err d) e k ih = cc

-- The stack after `finish`: a slot's bracket has been closed.
abbrev left : Option Frame → List Frame → List Frame
left none stack = stack
left (some f) stack = popped stack

run-finish :
    (s : State) (stack : List Frame)
    → fits (slot s) (last stack) ≡ true
    → run (record { state = s; stack = stack }) (codes (finish s))
      ≡ ok (record { state = after_value; stack = left (slot s) stack })
unfolding run advance step value_position step_after_value close is_ws is_ident_start is_ident_tail
    is_ascii_digit
run-finish expect_binder_call_close (paren ∷ stack) h = refl
run-finish expect_binder_call_close stack h = cc
run-finish in_multiplicity (bracket ∷ stack) h = refl
run-finish in_multiplicity stack h = cc
run-finish expect_binder_mult (bracket ∷ stack) h = refl
run-finish expect_binder_mult stack h = cc
run-finish in_binder_mult (bracket ∷ stack) h = refl
run-finish in_binder_mult stack h = cc
run-finish after_binder_mult_token (bracket ∷ stack) h = refl
run-finish after_binder_mult_token stack h = cc
run-finish (in_str_lit true) stack h = refl
run-finish (in_str_lit false) stack h = refl
run-finish (in_rel_col_str_lit true) stack h = refl
run-finish (in_rel_col_str_lit false) stack h = refl
run-finish _ stack h = refl

-- From a completed term every open frame can be closed by its own closer.
run_closers :
    (stack : List Frame)
    → run (record { state = after_value; stack = stack }) (map closer stack)
      ≡ ok (record { state = after_value; stack = [] })
unfolding run advance step step_after_value close is_ws
run_closers [] = refl
run_closers (paren ∷ fs) = run_closers fs
run_closers (group ∷ fs) = run_closers fs
run_closers (bracket ∷ fs) = run_closers fs
run_closers (brace ∷ fs) = run_closers fs
run_closers (brace_lambda ∷ fs) = run_closers fs
run_closers (rel_col_bracket ∷ fs) = run_closers fs

append_step :
    (xs ys : List ℕ) (r : Result Pda)
    → ((q : Pda) → run q (xs ++ ys) ≡ then_run (λ m. run m ys) (run q xs))
    → then_run (λ q. run q (xs ++ ys)) r ≡ then_run (λ m. run m ys) (then_run (λ q. run q xs) r)
append_step xs ys (ok q) ih = ih q
append_step xs ys (err d) ih = refl

run-append : (xs ys : List ℕ) (p : Pda) → run p (xs ++ ys) ≡ then_run (λ m. run m ys) (run p xs)
unfolding run
run-append [] ys p = refl
run-append (x ∷ xs) ys p = append_step xs ys (advance p x) (run-append xs ys)

-- Bytes that complete a stream: those that end the open lexeme, then the closers of the open frames.
unfoldable pub completion : Pda → List ℕ
completion p = codes (finish p.state) ++ map closer (left (slot p.state) p.stack)

abbrev pub finished : Pda
finished = record { state = after_value; stack = [] }

run-completion : (p : Pda) → Slotted p → run p (completion p) ≡ ok finished
unfolding completion
run-completion p v =
    run-append (codes (finish p.state)) (map closer (left (slot p.state) p.stack)) p
    ∙ rw (run-finish p.state p.stack v) (run_closers (left (slot p.state) p.stack))

-- No stream is a dead end: whatever the automaton has taken from its start, `completion` completes
-- it to a query that is accepted.
pub completion-accepting :
    (bytes : List ℕ) (p : Pda)
    → run new bytes ≡ ok p
    → (q : Pda) × (run new (bytes ++ completion p) ≡ ok q) × (is_accepting q ≡ true)
unfolding is_accepting step step_after_value completes_a_term is_ws
completion-accepting bytes p h = (
  finished,
  run-append bytes (completion p) new ∙ rw h (run-completion p (run-Slotted bytes new p refl h)),
  refl,
)
