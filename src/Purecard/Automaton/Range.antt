-- ===== src/Purecard/Automaton/Range.antt =====
-- A table that was accepted moves only between declared states and frames.
use mathlib.Core.Path.{subst}
use pure_analyzer.Shared.{
  ℕ, zero, suc, ◌<◌, true, ◌&&◌, Option, none, some, List, [], ◌∷◌, ◌≡◌, ◌≢◌, arith, ltb,
  Bool-cases, inl, inr, length, get_elem?,
}
use pure_analyzer.Shared.Every.{All}
use pure_analyzer.Purecard.Spec
use pure_analyzer.Purecard.Spec.{GrammarSpecV1, matches}
use pure_analyzer.Purecard.Automaton.{
  Step, CompiledGuard, CompiledAction, CompiledRule, CompiledState, CompiledAutomaton,
  guard_matches, select, selected, resolve, step_from, step,
}
use pure_analyzer.Purecard.Automaton.Lower.{ok, or_err, id_of, lower_states}
use pure_analyzer.Purecard.Automaton.Graph.{names_of, check_goto_acyclic, check_reachable_accept}
use pure_analyzer.Purecard.Automaton.Compile.{
  guard_bound, total_rules, check_frames, automaton_of, compile_v1,
}
use pure_analyzer.Purecard.Automaton.Closed.{
  bind-ok, ok-injective, resolve-lt, ActionIsClosed, PopIsGuarded, RuleIsClosed, StateIsClosed,
  lower_states-closed,
}

pub record IsClosed (a : CompiledAutomaton) : Type 0 where
  pub start : a.start < length a.states
  pub states : All (StateIsClosed (length a.states) a.frame_count) a.states

-- The parts of a compilation that succeeded.
pub record IsCompiled (spec : GrammarSpecV1) (a : CompiledAutomaton) : Type 0 where
  pub start : ℕ
  pub states : List CompiledState
  pub started :
      or_err (Spec.unknown_start_state spec.start) (id_of (names_of spec.states) spec.start)
      ≡ ok start
  pub lowered : lower_states (names_of spec.states) spec.frames spec.states ≡ ok states
  pub acyclic : check_goto_acyclic spec ≡ ok tt
  pub made : automaton_of spec start states ≡ a

pub compile_v1-IsCompiled :
    (spec : GrammarSpecV1) (a : CompiledAutomaton) → compile_v1 spec ≡ ok a → IsCompiled spec a
unfolding compile_v1
compile_v1-IsCompiled spec a h =
    let (u0, e0, h0) = bind-ok (guard_bound (ltb Spec.max_frames (length spec.frames)) _) _ h in
    let (u1, e1, h1) = bind-ok (check_frames [] spec.frames) _ h0 in
    let (u2, e2, h2) = bind-ok (guard_bound (ltb Spec.max_states (length spec.states)) _) _ h1 in
    let (start, e3, h3) = bind-ok (or_err _ (id_of (names_of spec.states) spec.start)) _ h2 in
    let (u4, e4, h4) =
      bind-ok (guard_bound (ltb Spec.max_total_rules (total_rules spec.states)) _) _ h3 in
    let (states, e5, h5) =
      bind-ok (lower_states (names_of spec.states) spec.frames spec.states) _ h4 in
    let (u6, e6, h6) = bind-ok (check_goto_acyclic spec) _ h5 in
    let (u7, e7, h7) =
      bind-ok (check_reachable_accept (automaton_of spec start states) spec.start) _ h6 in
    record {
      start = start;
      states = states;
      started = e3;
      lowered = e5;
      acyclic = e6;
      made = ok-injective (automaton_of spec start states) a h7;
    }

compile_v1-IsClosed :
    (spec : GrammarSpecV1) (a : CompiledAutomaton) → compile_v1 spec ≡ ok a → IsClosed a
compile_v1-IsClosed spec a h =
    let c = compile_v1-IsCompiled spec a h in
    let names = names_of spec.states in
    let (v, w) = lower_states-closed names spec.frames spec.states c.states c.lowered in
    subst IsClosed c.made
      (record { start = rw w (resolve-lt _ names spec.start c.start c.started); states = rw w v })

-- What a selected action may be under the frame it was selected for.
abbrev PopFits : Option ℕ → CompiledAction → Type 0
PopFits top (CompiledAction.pop t) = top ≢ none
PopFits top _ = Unit

guarded_pop :
    (g : CompiledGuard) (top : Option ℕ) (c : CompiledAction)
    → guard_matches g top ≡ true
    → PopIsGuarded g c
    → PopFits top c
unfolding guard_matches
guarded_pop g top (CompiledAction.next t) m p = tt
guarded_pop g top (CompiledAction.push f t) m p = tt
guarded_pop g top (CompiledAction.goto t) m p = tt
guarded_pop g top CompiledAction.dead m p = tt
guarded_pop (CompiledGuard.stack_top_is f) none (CompiledAction.pop t) m p = λ e. cc
guarded_pop (CompiledGuard.stack_top_is f) (some g) (CompiledAction.pop t) m p = λ e. cc
guarded_pop CompiledGuard.stack_non_empty none (CompiledAction.pop t) m p = λ e. cc
guarded_pop CompiledGuard.stack_non_empty (some g) (CompiledAction.pop t) m p = λ e. cc
guarded_pop CompiledGuard.always top (CompiledAction.pop t) m p = λ e. cc
guarded_pop CompiledGuard.stack_empty top (CompiledAction.pop t) m p = λ e. cc
guarded_pop (CompiledGuard.stack_top_is_not f) top (CompiledAction.pop t) m p = λ e. cc

module _ (states frames : ℕ) where
  select-closed :
      (rs : List CompiledRule) (top : Option ℕ) (b : ℕ)
      → All (RuleIsClosed states frames) rs
      → ActionIsClosed states frames (select rs top b) × PopFits top (select rs top b)
  unfolding select
  select-closed [] top b v = (tt, tt)
  select-closed (r ∷ rs) top b ((c, p), v) =
      elim (Bool-cases (matches r.byte_test b && guard_matches r.guard top)) [
        | inl e ↦ rw e (c, guarded_pop r.guard top r.action (ground arith) p)
        | inr e ↦ rw e (select-closed rs top b v)
      ]

  selected-closed :
      (ss : List CompiledState) (s : ℕ) (top : Option ℕ) (b : ℕ)
      → All (StateIsClosed states frames) ss
      → ActionIsClosed states frames (selected (get_elem? ss s) top b)
        × PopFits top (selected (get_elem? ss s) top b)
  selected-closed [] s top b v = (tt, tt)
  selected-closed (x ∷ ss) zero top b v = select-closed x.rules top b v.0
  selected-closed (x ∷ ss) (suc s) top b v = selected-closed ss s top b v.1

-- A step names declared states and frames only, and pops only where there is a frame.
abbrev pub StepIsClosed : ℕ → ℕ → Option ℕ → Step → Type 0
StepIsClosed states frames top (Step.next t) = t < states
StepIsClosed states frames top (Step.push f t) = (f < frames) × (t < states)
StepIsClosed states frames top (Step.pop t) = (t < states) × (top ≢ none)
StepIsClosed states frames top Step.dead = Unit

resolve-closed :
    (states frames : ℕ) (top : Option ℕ) (c : CompiledAction) (again : ℕ → Step)
    → ActionIsClosed states frames c
    → PopFits top c
    → ((t : ℕ) → StepIsClosed states frames top (again t))
    → StepIsClosed states frames top (resolve c top again)
resolve-closed states frames top (CompiledAction.next t) again v p k = v
resolve-closed states frames top (CompiledAction.push f t) again v p k = v
resolve-closed states frames none (CompiledAction.pop t) again v p k = tt
resolve-closed states frames (some f) (CompiledAction.pop t) again v p k = (v, p)
resolve-closed states frames top (CompiledAction.goto t) again v p k = k t
resolve-closed states frames top CompiledAction.dead again v p k = tt

step_from-closed :
    (a : CompiledAutomaton) (rounds s : ℕ) (top : Option ℕ) (b : ℕ)
    → IsClosed a
    → StepIsClosed (length a.states) a.frame_count top (step_from a.states rounds s top b)
unfolding step_from
step_from-closed a zero s top b v = tt
step_from-closed a (suc rounds) s top b v =
    let (c, p) = selected-closed (length a.states) a.frame_count a.states s top b v.states in
    resolve-closed (length a.states) a.frame_count top (selected (get_elem? a.states s) top b)
      (λ t. step_from a.states rounds t top b) c p (λ t. step_from-closed a rounds t top b v)

-- In the automaton of a spec that `compile_v1` accepts, every step leads to a declared state, pushes a
-- declared frame, and pops only where a frame is on top.
pub compile_v1-closed :
    (spec : GrammarSpecV1) (a : CompiledAutomaton) (s : ℕ) (top : Option ℕ) (b : ℕ)
    → compile_v1 spec ≡ ok a
    → StepIsClosed (length a.states) a.frame_count top (step a s top b)
unfolding step
compile_v1-closed spec a s top b h =
    step_from-closed a (suc (length a.states)) s top b (compile_v1-IsClosed spec a h)
