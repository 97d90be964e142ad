-- ===== src/Purecard/Grammar/Frames.antt =====
-- The frame of a block query lies at the bottom of the stack, and the start state is never come back
-- to.
use pure_analyzer.Shared.{ℕ, Bool, true, false, not, ◌&&◌, Option, List, [], ◌∷◌, ◌≡◌, refl, arith}
use pure_analyzer.Purecard.Grammar.State.{
  State, start, expect_value, Frame, brace, Step, next, push, pop, dead,
}
use pure_analyzer.Purecard.Grammar.Bytes.{close}
use pure_analyzer.Purecard.Grammar.Hubs.{value_position, step_after_value}
use pure_analyzer.Purecard.Grammar.Dispatch.{step}
use pure_analyzer.Purecard.Grammar.Pda.{Result, ok, err, Pda, last, popped, then_run, advance, run}

abbrev pub is_start : State → Bool
is_start start = true
is_start _ = false

abbrev pub is_brace : Frame → Bool
is_brace brace = true
is_brace _ = false

-- What a step from another state than `start` may do.
abbrev tame : Step → Bool
tame (next t) = not (is_start t)
tame (push f t) = not (is_start t) && not (is_brace f)
tame (pop t) = not (is_start t)
tame dead = true

value_position-tame :
    (top : Option Frame) (b : ℕ) (allow : Bool) → tame (value_position top b allow) ≡ true
unfolding value_position close
value_position-tame top b allow = ground arith

step_after_value-tame : (top : Option Frame) (b : ℕ) → tame (step_after_value top b) ≡ true
unfolding step_after_value close
step_after_value-tame top b = ground arith

step-tame :
    (s : State) (top : Option Frame) (b : ℕ) → is_start s ≡ false → tame (step s top b) ≡ true
unfolding step
step-tame start top b h = cc
step-tame expect_value top b h = value_position-tame top b true
step-tame _ top b h = ground (arith, value_position-tame top b false, step_after_value-tame top b)

-- `Frame::Brace` on no place but the last.
abbrev pub brace_at_bottom : List Frame → Bool
brace_at_bottom [] = true
brace_at_bottom (f ∷ []) = true
brace_at_bottom (f ∷ g ∷ fs) = not (is_brace f) && brace_at_bottom (g ∷ fs)

abbrev pub is_nil : List Frame → Bool
is_nil [] = true
is_nil (f ∷ fs) = false

pub record IsFramed (p : Pda) : Type 0 where
  pub fresh : is_start p.state ≡ true → is_nil p.stack ≡ true
  pub bottom : brace_at_bottom p.stack ≡ true

brace_at_bottom-popped :
    (stack : List Frame) → brace_at_bottom stack ≡ true → brace_at_bottom (popped stack) ≡ true
brace_at_bottom-popped [] h = refl
brace_at_bottom-popped (f ∷ []) h = refl
brace_at_bottom-popped (f ∷ g ∷ fs) h = ground arith

brace_at_bottom-cons :
    (f : Frame) (stack : List Frame)
    → is_brace f ≡ false
    → brace_at_bottom stack ≡ true
    → brace_at_bottom (f ∷ stack) ≡ true
brace_at_bottom-cons f [] h k = refl
brace_at_bottom-cons f (g ∷ fs) h k = ground arith

-- From the start state, where the stack is empty.
start_step :
    (stack : List Frame) (q : Pda) (b : ℕ)
    → is_nil stack ≡ true
    → advance (record { state = start; stack = stack }) b ≡ ok q
    → IsFramed q
unfolding advance step
start_step [] q b n h = ground arith
start_step (f ∷ fs) q b n h = cc

later_step :
    (s : State) (stack : List Frame) (q : Pda) (b : ℕ)
    → is_start s ≡ false
    → brace_at_bottom stack ≡ true
    → advance (record { state = s; stack = stack }) b ≡ ok q
    → IsFramed q
unfolding advance
later_step s stack q b n v h =
    grind
      (arith, step-tame s (last stack) b n, brace_at_bottom-popped stack v, brace_at_bottom-cons)

advance-IsFramed : (p q : Pda) (b : ℕ) → IsFramed p → advance p b ≡ ok q → IsFramed q
advance-IsFramed p q b v h = from_state p.state p.stack v h
  where
    from_state :
        (s : State) (stack : List Frame)
        → IsFramed (record { state = s; stack = stack })
        → advance (record { state = s; stack = stack }) b ≡ ok q
        → IsFramed q
    from_state start stack v h = start_step stack q b (v.fresh refl) h
    from_state expect_value stack v h = later_step expect_value stack q b refl v.bottom h
    from_state s stack v h = later_step s stack q b refl v.bottom h

-- On every stream from a configuration where it holds, the frame of a block query lies at the bottom of
-- the stack and nowhere else, and nothing is open in the start state.
pub run-IsFramed : (bs : List ℕ) (p q : Pda) → IsFramed p → run p bs ≡ ok q → IsFramed q
unfolding run
run-IsFramed [] p q v h = ground arith
run-IsFramed (b ∷ bs) p q v h = after_step (advance p b) refl h (λ m w k. run-IsFramed bs m q w k)
  where
    after_step :
        (r : Result Pda)
        → advance p b ≡ r
        → then_run (λ m. run m bs) r ≡ ok q
        → ((m : Pda) → IsFramed m → run m bs ≡ ok q → IsFramed q)
        → IsFramed q
    after_step (ok m) e k ih = ih m (advance-IsFramed p m b v e) k
    after_step (err d) e k ih = cc
