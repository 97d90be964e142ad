-- ===== src/Purecard/Automaton/Leads.antt =====
-- In the automaton of an accepted spec every chain of `Goto`s ends, within the rounds of `step`.
use Prim.Native.String.{String}
use mathlib.Core.Path.{subst}
use pure_analyzer.Shared.{
  ℕ, zero, suc, ◌<◌, Bool, true, false, Option, List, [], ◌∷◌, ◌≡◌, refl, ap, arith, length,
  get_elem?,
}
use pure_analyzer.Shared.Cells.{get_or, replicate}
use pure_analyzer.Purecard.Spec.{StateSpec, GrammarSpecV1}
use pure_analyzer.Purecard.Automaton.{
  Step, CompiledAction, CompiledState, CompiledAutomaton, selected, resolve, step_from, step,
}
use pure_analyzer.Purecard.Automaton.Lower.{ok}
use pure_analyzer.Purecard.Automaton.Graph.{
  unvisited, Traversal, drained, cycle, exhausted, traverse_all, state_edges, targets, names_of,
  goto_verdict, graph_traversal_budget, check_goto_acyclic,
}
use pure_analyzer.Purecard.Automaton.Compile.{compile_v1}
use pure_analyzer.Purecard.Automaton.Closed.{refused, lower_states-closed}
use pure_analyzer.Purecard.Automaton.Range.{compile_v1-IsCompiled}
use pure_analyzer.Purecard.Automaton.Search.{Height}
use pure_analyzer.Purecard.Automaton.Edges.{
  StatesIn, GotoIn, Listed, lower_states-StatesIn, selected-GotoIn,
}
use pure_analyzer.Purecard.Automaton.Chains.{drained-Height}

abbrev is_goto : CompiledAction → Bool
is_goto (CompiledAction.goto t) = true
is_goto _ = false

-- From a state, under a frame and a byte, `Goto`s lead to an action that is none.
pub data Leads (states : List CompiledState) (top : Option ℕ) (b : ℕ)
    : ℕ → CompiledAction → Type 0 where
  stops :
      (s : ℕ) (c : CompiledAction)
      → selected (get_elem? states s) top b ≡ c
      → is_goto c ≡ false
      → Leads states top b s c
  follows :
      (s t : ℕ) (c : CompiledAction)
      → selected (get_elem? states s) top b ≡ CompiledAction.goto t
      → Leads states top b t c
      → Leads states top b s c

-- What the step does with the action that ends the chain.
abbrev pub perform : CompiledAction → Option ℕ → Step
perform c top = resolve c top (λ _. Step.dead)

-- The chain from the state ends, and the step is its last action.
abbrev StepEnds : List CompiledState → ℕ → ℕ → Option ℕ → ℕ → Type 0
StepEnds states rounds s top b =
    (c : CompiledAction) × Leads states top b s c
    × (step_from states rounds s top b ≡ perform c top)

module _ (states : List CompiledState) (edges : List (List ℕ))
    (inside : StatesIn edges states) where
  at_end :
      (rounds s : ℕ) (top : Option ℕ) (b : ℕ) (c : CompiledAction)
      → selected (get_elem? states s) top b ≡ c
      → is_goto c ≡ false
      → resolve c top (λ t. step_from states rounds t top b) ≡ perform c top
      → StepEnds states (suc rounds) s top b
  unfolding step_from
  at_end rounds s top b c e g q = (c, stops s c e g, rw e q)

  abbrev Ending : ℕ → ℕ → Option ℕ → ℕ → Type 0
  Ending d rounds top b = (t : ℕ) → Height edges d t → StepEnds states rounds t top b

  one_hop :
      (d rounds s t : ℕ) (top : Option ℕ) (b : ℕ)
      → selected (get_elem? states s) top b ≡ CompiledAction.goto t
      → Listed (get_or [] edges s) t
      → Height edges d s
      → ((e : ℕ) → d ≡ suc e → Ending e rounds top b)
      → StepEnds states (suc rounds) s top b
  unfolding step_from
  one_hop zero rounds s t top b e (k, q) h ih = absurd (h k t q)
  one_hop (suc d) rounds s t top b e (k, q) h ih =
      let (c, chain, same) = ih d refl t (h k t q) in (c, follows s t c e chain, rw e same)

  by_action :
      (d rounds s : ℕ) (top : Option ℕ) (b : ℕ) (c : CompiledAction)
      → selected (get_elem? states s) top b ≡ c
      → GotoIn (get_or [] edges s) c
      → Height edges d s
      → ((e : ℕ) → d ≡ suc e → Ending e rounds top b)
      → StepEnds states (suc rounds) s top b
  by_action d rounds s top b (CompiledAction.next t) e g h ih =
      at_end rounds s top b (CompiledAction.next t) e refl refl
  by_action d rounds s top b (CompiledAction.push f t) e g h ih =
      at_end rounds s top b (CompiledAction.push f t) e refl refl
  by_action d rounds s top b (CompiledAction.pop t) e g h ih =
      at_end rounds s top b (CompiledAction.pop t) e refl refl
  by_action d rounds s top b CompiledAction.dead e g h ih =
      at_end rounds s top b CompiledAction.dead e refl refl
  by_action d rounds s top b (CompiledAction.goto t) e g h ih = one_hop d rounds s t top b e g h ih

  step_from-Ends : (d rounds : ℕ) (top : Option ℕ) (b : ℕ) → d < rounds → Ending d rounds top b
  step_from-Ends d zero top b lt s h = absurd (omega arith)
  step_from-Ends d (suc rounds) top b lt s h =
      by_action d rounds s top b (selected (get_elem? states s) top b) refl
        (selected-GotoIn edges states s top b inside) h
        (λ e q. step_from-Ends e rounds top b (omega arith))

length-targets :
    (names : List String) (ss : List (String × StateSpec))
    → length (targets (state_edges names ss)) ≡ length (names_of ss)
length-targets names [] = refl
length-targets names ((n, s) ∷ ss) = ap suc (length-targets names ss)

by_verdict :
    (spec : GrammarSpecV1) (names : List String) (edges : List (List (ℕ × ℕ))) (budget n : ℕ)
    (t : Traversal)
    → length (targets edges) ≡ n
    → traverse_all (targets edges) budget 0 n (replicate n unvisited) ≡ t
    → goto_verdict spec names edges t ≡ ok tt
    → (u : ℕ) → Height (targets edges) n u
by_verdict spec names edges budget n (drained marks) l e q =
    drained-Height (targets edges) budget n marks l e
by_verdict spec names edges budget n (cycle node neighbor) l e q = absurd (refused _ tt q)
by_verdict spec names edges budget n exhausted l e q = absurd (refused _ tt q)

acyclic-Height :
    (spec : GrammarSpecV1)
    → check_goto_acyclic spec ≡ ok tt
    → (u : ℕ)
    → Height
        (targets (state_edges (names_of spec.states) spec.states))
        (length (names_of spec.states))
        u
unfolding check_goto_acyclic
acyclic-Height spec h =
    let names = names_of spec.states in
    let edges = state_edges names spec.states in
    by_verdict spec names edges graph_traversal_budget (length names)
      (traverse_all (targets edges) graph_traversal_budget 0 (length names)
        (replicate (length names) unvisited))
      (length-targets names spec.states) refl h

-- In the automaton of a spec that `compile_v1` accepts, from every state, under every top of the stack
-- and every byte, the `Goto`s that are followed end in an action that is none, and the rounds of `step`
-- are enough to reach it: the step is what that action does.
pub compile_v1-Leads :
    (spec : GrammarSpecV1) (a : CompiledAutomaton) (s : ℕ) (top : Option ℕ) (b : ℕ)
    → compile_v1 spec ≡ ok a
    → (c : CompiledAction) × Leads a.states top b s c × (step a s top b ≡ perform c top)
unfolding step
compile_v1-Leads spec a s top b h =
    let c = compile_v1-IsCompiled spec a h in
    let names = names_of spec.states in
    let (v, w) = lower_states-closed names spec.frames spec.states c.states c.lowered in
    subst (λ x. StepEnds x.states (suc (length x.states)) s top b) c.made
      (step_from-Ends c.states (targets (state_edges names spec.states))
        (lower_states-StatesIn names spec.frames spec.states c.states c.lowered) (length names)
        (suc (length c.states)) top b (omega (arith, w)) s (acyclic-Height spec c.acyclic s))
