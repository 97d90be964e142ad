-- ===== src/Purecard/Grammar/Stable.antt =====
-- How a step depends on the frame below it, over the empty stack and over any frame.
use pure_analyzer.Shared.{
  ℕ, Bool, true, false, none, some, List, [], ◌∷◌, ◌++◌, ◌≡◌, ◌≢◌, refl, arith,
}
use pure_analyzer.Purecard.Grammar.State.{
  State, start, expect_value, expect_value_req, expect_lambda_body, saw_dash, saw_pipe, saw_gt,
  saw_lt, Frame, paren, pop, dead,
}
use pure_analyzer.Purecard.Grammar.Bytes.{close, separates_elements, holds_a_lambda_slot}
use pure_analyzer.Purecard.Grammar.Hubs.{value_position, step_after_value}
use pure_analyzer.Purecard.Grammar.Dispatch.{step}
use pure_analyzer.Purecard.Grammar.Pda.{last, consults_ambient}

value_position_stable :
    (f : Frame) (b : ℕ) (allow : Bool)
    → value_position none b allow ≢ dead
    → value_position (some f) b allow ≡ value_position none b allow
unfolding value_position close
value_position_stable f b allow h = ground arith

step_after_value_stable :
    (f : Frame) (b : ℕ)
    → step_after_value none b ≢ dead
    → step_after_value (some f) b ≡ step_after_value none b
unfolding step_after_value close holds_a_lambda_slot
step_after_value_stable f b h = ground arith

-- A byte that is taken over the empty stack is taken in the same way over any frame.
step_stable :
    (s : State) (f : Frame) (b : ℕ) → step s none b ≢ dead → step s (some f) b ≡ step s none b
unfolding step holds_a_lambda_slot separates_elements
step_stable start f b h = refl
step_stable expect_value f b h = value_position_stable f b true h
step_stable expect_value_req f b h = value_position_stable f b false h
step_stable expect_lambda_body f b h = ground (arith, value_position_stable f b false)
step_stable saw_dash f b h = ground (arith, value_position_stable f b false)
step_stable saw_pipe f b h = ground (arith, value_position_stable f b false)
step_stable saw_gt f b h = ground (arith, value_position_stable f b false)
step_stable saw_lt f b h = ground (arith, value_position_stable f b false)
step_stable _ f b h = ground (arith, step_after_value_stable f b)

value_position-ne-pop : (t : State) (b : ℕ) (allow : Bool) → value_position none b allow ≢ pop t
unfolding value_position close
value_position-ne-pop t b allow = ground arith

step_after_value-ne-pop : (t : State) (b : ℕ) → step_after_value none b ≢ pop t
unfolding step_after_value close
step_after_value-ne-pop t b = ground arith

-- Nothing is popped from the empty stack.
pub step-ne-pop : (s t : State) (b : ℕ) → step s none b ≢ pop t
unfolding step
step-ne-pop start t b = ground arith
step-ne-pop expect_value t b = value_position-ne-pop t b true
step-ne-pop expect_value_req t b = value_position-ne-pop t b false
step-ne-pop expect_lambda_body t b = ground (arith, value_position-ne-pop t b false)
step-ne-pop saw_dash t b = ground (arith, value_position-ne-pop t b false)
step-ne-pop saw_pipe t b = ground (arith, value_position-ne-pop t b false)
step-ne-pop saw_gt t b = ground (arith, value_position-ne-pop t b false)
step-ne-pop saw_lt t b = ground (arith, value_position-ne-pop t b false)
step-ne-pop _ t b = ground (arith, step_after_value-ne-pop t b)

pub step-append :
    (s : State) (stack ambient : List Frame) (b : ℕ)
    → step s (last stack) b ≢ dead
    → step s (last (stack ++ ambient)) b ≡ step s (last stack) b
step-append s (f ∷ fs) ambient b h = refl
step-append s [] [] b h = refl
step-append s [] (g ∷ gs) b h = step_stable s g b h

-- A byte that no frame would have kept alive is refused over every frame.
dead_everywhere :
    (s : State) (g : Frame) (b : ℕ) → consults_ambient s [] b ≡ false → step s (some g) b ≡ dead
unfolding consults_ambient
dead_everywhere s paren b h = ground arith
dead_everywhere s _ b h = ground arith

pub dead-append :
    (s : State) (stack ambient : List Frame) (b : ℕ)
    → consults_ambient s stack b ≡ false
    → step s (last stack) b ≡ dead
    → step s (last (stack ++ ambient)) b ≡ dead
dead-append s (f ∷ fs) ambient b h e = e
dead-append s [] [] b h e = e
dead-append s [] (g ∷ gs) b h e = dead_everywhere s g b h
