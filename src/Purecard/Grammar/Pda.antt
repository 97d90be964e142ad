-- ===== src/Purecard/Grammar/Pda.antt =====
-- crates/pure-analyzer-purecard/src/grammar/pda.rs: `Pda`, the driver that applies each step to a
-- state and a stack of frames. The stack is a list with its top first, the reverse of the `Vec`.
use Prim.Native.String.{String}
use pure_analyzer.Shared.{
  ℕ, Bool, true, false, ◌&&◌, Option, none, some, List, [], ◌∷◌, if◌then◌else◌,
}
use pure_analyzer.Purecard.Grammar.State.{
  State, start, after_value, after_name, after_member_name, after_str_lit, after_rel_col_name,
  Frame, Step, next, push, pop, dead,
}
use pure_analyzer.Purecard.Grammar.Names.{name, frame_name}
use pure_analyzer.Purecard.Grammar.Bytes.{all_frames, value_boundary}
use pure_analyzer.Purecard.Grammar.Dispatch.{step}

-- `state` and `stack_top` name the configuration that refused a byte.
pub record DeadState : Type 0 where
  pub state : String
  pub stack_top : String

pub data Result (A : Type 0) : Type 0 where
  ok : A → Result A
  err : DeadState → Result A

pub record Pda : Type 0 where
  pub state : State
  pub stack : List Frame

-- `Vec::last`
abbrev pub last : List Frame → Option Frame
last [] = none
last (f ∷ fs) = some f

-- `Vec::pop`, whose result the source drops
abbrev pub popped : List Frame → List Frame
popped [] = []
popped (f ∷ fs) = fs

abbrev pub at : State → Pda
at s = record { state = s; stack = [] }

abbrev pub new : Pda
new = at start

abbrev pub stack_top_name : Option Frame → String
stack_top_name none = "none"
stack_top_name (some f) = frame_name f

abbrev pub apply : Pda → Step → Result Pda
apply p (next s) = ok (record p { state = s })
apply p (push f s) = ok (record { state = s; stack = f ∷ p.stack })
apply p (pop s) = ok (record { state = s; stack = popped p.stack })
apply p dead = err (record { state = name p.state; stack_top = stack_top_name (last p.stack) })

unfoldable pub advance : Pda → ℕ → Result Pda
advance p byte = apply p (step p.state (last p.stack) byte)

-- The bytes of a stream, fed one by one until one is refused.
abbrev pub then_run : (Pda → Result Pda) → Result Pda → Result Pda
then_run k (ok p) = k p
then_run k (err e) = err e

unfoldable pub run : Pda → List ℕ → Result Pda
run p [] = ok p
run p (b ∷ bs) = then_run (λ q. run q bs) (advance p b)

unfoldable pub completes_a_term : State → Bool
completes_a_term after_value = true
completes_a_term after_name = true
completes_a_term after_member_name = true
completes_a_term after_str_lit = true
completes_a_term after_rel_col_name = true
completes_a_term _ = false

abbrev pub lands_on_a_term : Step → Bool
lands_on_a_term (next s) = completes_a_term s
lands_on_a_term _ = false

abbrev pub is_empty : List Frame → Bool
is_empty [] = true
is_empty (f ∷ fs) = false

unfoldable pub is_accepting : Pda → Bool
is_accepting p = is_empty p.stack && lands_on_a_term (step p.state none value_boundary)

pub record Probe : Type 0 where
  pub alive : Bool
  pub consulted_ambient : Bool

abbrev pub is_dead : Step → Bool
is_dead dead = true
is_dead _ = false

-- `ALL_FRAMES.iter().any(|&f| !matches!(step(state, Some(f), byte), Step::Dead))`
abbrev pub any_alive : State → ℕ → List Frame → Bool
any_alive s b [] = false
any_alive s b (f ∷ fs) = if is_dead (step s (some f) b) then any_alive s b fs else true

unfoldable pub consults_ambient : State → List Frame → ℕ → Bool
consults_ambient s stack b = is_empty stack && any_alive s b all_frames

-- The loops of `admits` and `probe` over the scratch copy of the stack.
unfoldable pub admits_from : State → List Frame → List ℕ → Bool
admits_from s stack [] = true
admits_from s stack (b ∷ bs) = elim (step s (last stack) b) [
  | next t ↦ admits_from t stack bs
  | push f t ↦ admits_from t (f ∷ stack) bs
  | pop t ↦ admits_from t (popped stack) bs
  | dead ↦ false
]

unfoldable pub admits : Pda → List ℕ → Bool
unfolding admits_from
admits p bytes = admits_from p.state p.stack bytes

unfoldable pub probe_from : State → List Frame → List ℕ → Probe
unfolding consults_ambient
probe_from s stack [] = record { alive = true; consulted_ambient = false }
probe_from s stack (b ∷ bs) = elim (step s (last stack) b) [
  | next t ↦ probe_from t stack bs
  | push f t ↦ probe_from t (f ∷ stack) bs
  | pop t ↦ probe_from t (popped stack) bs
  | dead ↦ record { alive = false; consulted_ambient = consults_ambient s stack b }
]

unfoldable pub probe : Pda → List ℕ → Probe
unfolding probe_from
probe p bytes = probe_from p.state p.stack bytes
