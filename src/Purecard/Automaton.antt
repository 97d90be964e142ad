-- ===== src/Purecard/Automaton.antt =====
-- crates/pure-analyzer-purecard/src/grammar/compile.rs: `CompiledAutomaton`, the table that a spec is
-- lowered to, and `RtnPda`, which drives it. Stacks have their top first.
use Prim.Native.String.{String}
use pure_analyzer.Shared.{
  ℕ, zero, suc, Bool, true, false, not, ◌&&◌, ◌||◌, Option, none, some, List, [], ◌∷◌, ◌==◌,
  if◌then◌else◌, length, get_elem?,
}
use pure_analyzer.Purecard.Spec.{ByteTest, matches}
pub mod Lower
pub mod Graph
pub mod Compile
pub mod Closed
pub mod Range
pub mod Edges
pub mod Search
pub mod Drain
pub mod Rounds
pub mod Chains
pub mod Leads
pub mod Tests
pub mod Ambient

pub data Step : Type 0 where
  next : ℕ → Step
  push : ℕ → ℕ → Step
  pop : ℕ → Step
  dead : Step

pub data CompiledGuard : Type 0 where
  always stack_non_empty stack_empty : CompiledGuard
  stack_top_is stack_top_is_not : ℕ → CompiledGuard

-- `CompiledGuard::matches`
unfoldable pub guard_matches : CompiledGuard → Option ℕ → Bool
guard_matches always top = true
guard_matches (stack_top_is f) none = false
guard_matches (stack_top_is f) (some top) = top == f
guard_matches (stack_top_is_not f) none = false
guard_matches (stack_top_is_not f) (some top) = not (top == f)
guard_matches stack_non_empty none = false
guard_matches stack_non_empty (some top) = true
guard_matches stack_empty none = true
guard_matches stack_empty (some top) = false

pub data CompiledAction : Type 0 where
  next : ℕ → CompiledAction
  push : ℕ → ℕ → CompiledAction
  pop : ℕ → CompiledAction
  goto : ℕ → CompiledAction
  dead : CompiledAction

pub record CompiledRule : Type 0 where
  pub byte_test : ByteTest
  pub guard : CompiledGuard
  pub action : CompiledAction

pub record CompiledState : Type 0 where
  pub accepting : Bool
  pub rules : List CompiledRule

pub record CompiledAutomaton : Type 0 where
  pub states : List CompiledState
  pub start : ℕ
  pub frame_count : ℕ
  pub boundary_byte : ℕ
  pub state_names : List String
  pub frame_names : List String

abbrev or_unknown : Option String → String
or_unknown none = "unknown"
or_unknown (some n) = n

unfoldable pub state_name : CompiledAutomaton → ℕ → String
state_name a id = or_unknown (get_elem? a.state_names id)

unfoldable pub frame_name : CompiledAutomaton → Option ℕ → String
frame_name a none = "none"
frame_name a (some id) = or_unknown (get_elem? a.frame_names id)

abbrev pub state_count : CompiledAutomaton → ℕ
state_count a = length a.states

-- The action of the first rule whose test and guard match.
unfoldable pub select : List CompiledRule → Option ℕ → ℕ → CompiledAction
unfolding guard_matches
select [] top byte = dead
select (r ∷ rs) top byte =
    if matches r.byte_test byte && guard_matches r.guard top then r.action else select rs top byte

abbrev pub pop_unless_empty : Option ℕ → ℕ → Step
pop_unless_empty none s = dead
pop_unless_empty (some f) s = pop s

abbrev pub selected : Option CompiledState → Option ℕ → ℕ → CompiledAction
selected none top byte = dead
selected (some s) top byte = select s.rules top byte

-- The loop's body; `again` is the next round.
abbrev pub resolve : CompiledAction → Option ℕ → (ℕ → Step) → Step
resolve (next t) top again = next t
resolve (push f t) top again = push f t
resolve (pop t) top again = pop_unless_empty top t
resolve (goto t) top again = again t
resolve dead top again = dead

-- The rounds of the loop that follows `Goto`s.
unfoldable pub step_from : List CompiledState → ℕ → ℕ → Option ℕ → ℕ → Step
unfolding select
step_from states zero s top byte = dead
step_from states (suc rounds) s top byte =
    resolve (selected (get_elem? states s) top byte) top (λ t. step_from states rounds t top byte)

unfoldable pub step : CompiledAutomaton → ℕ → Option ℕ → ℕ → Step
unfolding step_from
step a s top byte = step_from a.states (suc (length a.states)) s top byte

abbrev pub is_marked : Option CompiledState → Bool
is_marked none = false
is_marked (some s) = s.accepting

abbrev pub lands_marked : List CompiledState → Step → Bool
lands_marked states (next landed) = is_marked (get_elem? states landed)
lands_marked states _ = false

abbrev pub accepts : CompiledAutomaton → ℕ → Option CompiledState → Bool
accepts a s none = false
accepts a s (some c) = c.accepting || lands_marked a.states (step a s none a.boundary_byte)

unfoldable pub is_accepting_state : CompiledAutomaton → ℕ → Bool
unfolding step
is_accepting_state a s = accepts a s (get_elem? a.states s)

pub record RtnPda : Type 0 where
  pub state : ℕ
  pub stack : List ℕ

abbrev pub at : ℕ → RtnPda
at s = record { state = s; stack = [] }

abbrev pub new : CompiledAutomaton → RtnPda
new a = at a.start

abbrev pub last : List ℕ → Option ℕ
last [] = none
last (f ∷ fs) = some f

abbrev pub popped : List ℕ → List ℕ
popped [] = []
popped (f ∷ fs) = fs

-- `false` is `none` here.
abbrev pub apply : RtnPda → Step → Option RtnPda
apply p (next s) = some (record p { state = s })
apply p (push f s) = some (record { state = s; stack = f ∷ p.stack })
apply p (pop s) = some (record { state = s; stack = popped p.stack })
apply p dead = none

unfoldable pub advance : CompiledAutomaton → RtnPda → ℕ → Option RtnPda
advance a p byte = apply p (step a p.state (last p.stack) byte)

abbrev is_empty : List ℕ → Bool
is_empty [] = true
is_empty (f ∷ fs) = false

unfoldable pub is_accepting : CompiledAutomaton → RtnPda → Bool
is_accepting a p = is_empty p.stack && is_accepting_state a p.state

unfoldable pub admits_from : CompiledAutomaton → ℕ → List ℕ → List ℕ → Bool
admits_from a s stack [] = true
admits_from a s stack (b ∷ bs) = elim (step a s (last stack) b) [
  | next t ↦ admits_from a t stack bs
  | push f t ↦ admits_from a t (f ∷ stack) bs
  | pop t ↦ admits_from a t (popped stack) bs
  | dead ↦ false
]

unfoldable pub admits : CompiledAutomaton → RtnPda → List ℕ → Bool
unfolding admits_from
admits a p bytes = admits_from a p.state p.stack bytes

pub record RtnProbe : Type 0 where
  pub alive : Bool
  pub consulted_ambient : Bool

abbrev pub is_dead : Step → Bool
is_dead dead = true
is_dead _ = false

-- `(0..frame_count).any(|f| !matches!(step(state, Some(f), byte), Step::Dead))`
abbrev pub any_alive : CompiledAutomaton → ℕ → ℕ → ℕ → Bool
any_alive a s b zero = false
any_alive a s b (suc f) = not (is_dead (step a s (some f) b)) || any_alive a s b f

unfoldable pub consults_ambient : CompiledAutomaton → ℕ → List ℕ → ℕ → Bool
consults_ambient a s stack b = is_empty stack && any_alive a s b a.frame_count

unfoldable pub probe_from : CompiledAutomaton → ℕ → List ℕ → List ℕ → RtnProbe
unfolding consults_ambient
probe_from a s stack [] = record { alive = true; consulted_ambient = false }
probe_from a s stack (b ∷ bs) = elim (step a s (last stack) b) [
  | next t ↦ probe_from a t stack bs
  | push f t ↦ probe_from a t (f ∷ stack) bs
  | pop t ↦ probe_from a t (popped stack) bs
  | dead ↦ record { alive = false; consulted_ambient = consults_ambient a s stack b }
]

unfoldable pub probe : CompiledAutomaton → RtnPda → List ℕ → RtnProbe
unfolding probe_from
probe a p bytes = probe_from a p.state p.stack bytes
