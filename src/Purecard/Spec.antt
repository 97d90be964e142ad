-- ===== src/Purecard/Spec.antt =====
-- crates/pure-analyzer-purecard/src/grammar/spec.rs: a grammar as a table of transitions. The reading
-- of its JSON is serde's. A `BTreeMap` is a list in the order of its keys.
use Prim.Native.String.{String}
use pure_analyzer.Shared.{
  ℕ, Bool, true, false, not, ◌&&◌, ◌||◌, List, [], ◌∷◌, ◌==◌, leb, holds_below,
}

abbrev pub max_states : ℕ
max_states = 512

abbrev pub max_rules_per_state : ℕ
max_rules_per_state = 64

abbrev pub max_total_rules : ℕ
max_total_rules = 8192

abbrev pub max_frames : ℕ
max_frames = 64

pub data ByteTest : Type 0 where
  whitespace ident_start ident_tail digit any : ByteTest
  exact : ℕ → ByteTest
  one_of none_of : List ℕ → ByteTest

pub data Guard : Type 0 where
  always stack_non_empty stack_empty : Guard
  stack_top_is stack_top_is_not : String → Guard

pub data Action : Type 0 where
  next pop goto : String → Action
  push : String → String → Action
  dead : Action

pub record TransitionRule : Type 0 where
  pub byte_test : ByteTest
  pub guard : Guard
  pub action : Action

pub record StateSpec : Type 0 where
  pub accepting : Bool
  pub rules : List TransitionRule

pub record GrammarSpecV1 : Type 0 where
  pub start : String
  pub boundary_byte : ℕ
  pub frames : List String
  pub states : List (String × StateSpec)

-- The bound that an error of size also holds is its constant.
pub data SpecError : Type 0 where
  malformed : String → SpecError
  unknown_start_state : String → SpecError
  unknown_target_state : String → ℕ → String → SpecError
  unknown_frame : String → ℕ → String → SpecError
  too_many_states : ℕ → SpecError
  too_many_rules : String → ℕ → SpecError
  too_many_total_rules : ℕ → SpecError
  too_many_frames : ℕ → SpecError
  duplicate_frame : String → SpecError
  ambiguous_transition : String → ℕ → ℕ → SpecError
  unreachable_rule : String → ℕ → ℕ → SpecError
  unguarded_pop : String → ℕ → SpecError
  cyclic_goto : String → ℕ → SpecError
  no_reachable_accept : String → SpecError

abbrev is_alpha : ℕ → Bool
is_alpha b = (leb b'a' b && leb b b'z') || (leb b'A' b && leb b b'Z')

abbrev is_digit : ℕ → Bool
is_digit b = leb b'0' b && leb b b'9'

abbrev pub includes : List ℕ → ℕ → Bool
includes [] b = false
includes (c ∷ cs) b = c == b || includes cs b

unfoldable pub matches : ByteTest → ℕ → Bool
matches whitespace b = b == b' ' || b == b'\t' || b == b'\n' || b == b'\r'
matches ident_start b = is_alpha b || b == b'_'
matches ident_tail b = is_alpha b || is_digit b || b == b'_'
matches digit b = is_digit b
matches (exact want) b = b == want
matches (one_of bytes) b = includes bytes b
matches (none_of bytes) b = not (includes bytes b)
matches any b = true

-- `(0..=u8::MAX).all(|b| !self.matches(b) || other.matches(b))`
unfoldable pub is_subsumed_by : ByteTest → ByteTest → Bool
unfolding holds_below
is_subsumed_by test other = holds_below (λ b. not (matches test b) || matches other b) 256
