-- ===== src/Purecard/Automaton/Graph.antt =====
-- crates/pure-analyzer-purecard/src/grammar/compile.rs: the two traversals that validate a table.
use Prim.Native.String.{String}
use pure_analyzer.Shared.{
  ℕ, zero, suc, Bool, true, false, Option, none, some, List, [], ◌∷◌, map, ◌==◌, if◌then◌else◌,
  length, get_elem?,
}
use pure_analyzer.Shared.Cells.{get_or, modify, replicate}
use pure_analyzer.Purecard.Spec.{
  Action, TransitionRule, StateSpec, GrammarSpecV1, cyclic_goto, no_reachable_accept, max_states,
}
use pure_analyzer.Purecard.Automaton.{
  CompiledAction, CompiledRule, CompiledState, CompiledAutomaton, is_accepting_state,
}
use pure_analyzer.Purecard.Automaton.Lower.{Lowered, ok, err, id_of}

pub data Mark : Type 0 where
  unvisited in_progress done : Mark

-- The `Goto` edges of a state, each with the index of its rule. An undeclared target has none.
abbrev pub edge_to : ℕ → Option ℕ → List (ℕ × ℕ) → List (ℕ × ℕ)
edge_to rule none es = es
edge_to rule (some to) es = (to, rule) ∷ es

abbrev pub goto_of : List String → ℕ → Action → List (ℕ × ℕ) → List (ℕ × ℕ)
goto_of states rule (Action.goto t) es = edge_to rule (id_of states t) es
goto_of states rule _ es = es

unfoldable pub goto_edges : List String → ℕ → List TransitionRule → List (ℕ × ℕ)
unfolding id_of
goto_edges states i [] = []
goto_edges states i (r ∷ rs) = goto_of states i r.action (goto_edges states (suc i) rs)

-- How the inner loop ends: the stack drained, an edge into a node in progress, or out of budget.
pub data Traversal : Type 0 where
  drained : List Mark → Traversal
  cycle : ℕ → ℕ → Traversal
  exhausted : Traversal

abbrev pub mark_at : List Mark → ℕ → Mark
mark_at marks n = get_or done marks n

abbrev pub set_mark : List Mark → ℕ → Mark → List Mark
set_mark marks n m = modify marks n (λ _. m)

abbrev pub edge : List (List ℕ) → ℕ → ℕ → Option ℕ
edge edges node next_edge = get_elem? (get_or [] edges node) next_edge

-- What one round does with the popped node: the marks and the stack of the next round, or a cycle.
pub data Round : Type 0 where
  on : List Mark → List (ℕ × ℕ) → Round
  cyclic : ℕ → ℕ → Round

abbrev pub meet : List Mark → List (ℕ × ℕ) → ℕ → ℕ → ℕ → Mark → Round
meet marks rest node next_edge neighbor in_progress = cyclic node neighbor
meet marks rest node next_edge neighbor unvisited =
    on (set_mark marks neighbor in_progress) ((neighbor, 0) ∷ (node, suc next_edge) ∷ rest)
meet marks rest node next_edge neighbor done = on marks ((node, suc next_edge) ∷ rest)

abbrev pub follow : List Mark → List (ℕ × ℕ) → ℕ → ℕ → Option ℕ → Round
follow marks rest node next_edge none = on (set_mark marks node done) rest
follow marks rest node next_edge (some neighbor) =
    meet marks rest node next_edge neighbor (mark_at marks neighbor)

abbrev pub go_on : (List Mark → List (ℕ × ℕ) → Traversal) → Round → Traversal
go_on again (on marks stack) = again marks stack
go_on again (cyclic node neighbor) = cycle node neighbor

-- `rounds` is one more than the iteration budget.
unfoldable pub traverse : List (List ℕ) → ℕ → List Mark → List (ℕ × ℕ) → Traversal
traverse edges zero marks stack = exhausted
traverse edges (suc rounds) marks [] = drained marks
traverse edges (suc rounds) marks ((node, next_edge) ∷ rest) =
    go_on (traverse edges rounds) (follow marks rest node next_edge (edge edges node next_edge))

abbrev pub is_unvisited : Mark → Bool
is_unvisited unvisited = true
is_unvisited _ = false

abbrev pub after_start : (List Mark → Traversal) → Traversal → Traversal
after_start again (drained marks) = again marks
after_start again (cycle node neighbor) = cycle node neighbor
after_start again exhausted = exhausted

-- The loop over the starts, `left` of them from `start` on.
unfoldable pub traverse_all : List (List ℕ) → ℕ → ℕ → ℕ → List Mark → Traversal
unfolding traverse
traverse_all edges budget start zero marks = drained marks
traverse_all edges budget start (suc left) marks =
    if is_unvisited (mark_at marks start)
    then after_start (traverse_all edges budget (suc start) left)
        (traverse edges (suc budget) (set_mark marks start in_progress) ((start, 0) ∷ []))
    else traverse_all edges budget (suc start) left marks

abbrev pub state_edges : List String → List (String × StateSpec) → List (List (ℕ × ℕ))
state_edges states [] = []
state_edges states ((n, s) ∷ rest) = goto_edges states 0 s.rules ∷ state_edges states rest

abbrev pub targets : List (List (ℕ × ℕ)) → List (List ℕ)
targets edges = map (λ es. map (λ e. e.0) es) edges

-- `owning_rule`: the first rule of the node that leads to the neighbor.
abbrev pub owner : List (ℕ × ℕ) → ℕ → ℕ
owner [] to = 0
owner ((t, rule) ∷ es) to = if t == to then rule else owner es to

abbrev pub name_at : List String → ℕ → String
name_at names i = get_or "" names i

-- `GRAPH_TRAVERSAL_BUDGET`
abbrev pub graph_traversal_budget : ℕ
graph_traversal_budget = 100_000

abbrev pub goto_verdict :
    GrammarSpecV1 → List String → List (List (ℕ × ℕ)) → Traversal → Lowered (Unit {0})
goto_verdict spec names edges (drained marks) = ok tt
goto_verdict spec names edges (cycle node neighbor) =
    err (cyclic_goto (name_at names node) (owner (get_or [] edges node) neighbor))
goto_verdict spec names edges exhausted = err (cyclic_goto spec.start 0)

abbrev pub names_of : List (String × StateSpec) → List String
names_of states = map (λ s. s.0) states

unfoldable pub check_goto_acyclic : GrammarSpecV1 → Lowered (Unit {0})
unfolding traverse_all goto_edges
check_goto_acyclic spec =
    let names = names_of spec.states in
    let edges = state_edges names spec.states in
    goto_verdict spec names edges (
      traverse_all (targets edges) graph_traversal_budget 0 (length names)
        (replicate (length names) unvisited))

-- The state that an action leads to, whatever its guard.
abbrev pub led_to : CompiledAction → Option ℕ
led_to (CompiledAction.next s) = some s
led_to (CompiledAction.push f s) = some s
led_to (CompiledAction.pop s) = some s
led_to (CompiledAction.goto s) = some s
led_to CompiledAction.dead = none

abbrev pub see : Option ℕ → List Bool × List ℕ → List Bool × List ℕ
see none (seen, stack) = (seen, stack)
see (some s) (seen, stack) =
    if get_or true seen s then (seen, stack) else (modify seen s (λ _. true), s ∷ stack)

unfoldable pub see_rules : List CompiledRule → List Bool × List ℕ → List Bool × List ℕ
see_rules [] w = w
see_rules (r ∷ rs) w = see_rules rs (see (led_to r.action) w)

abbrev rules_of : Option CompiledState → List CompiledRule
rules_of none = []
rules_of (some s) = s.rules

-- `false` where no accepting state was found, the budget run out included.
unfoldable pub reaches : CompiledAutomaton → ℕ → List Bool × List ℕ → Bool
unfolding see_rules
reaches a zero w = false
reaches a (suc rounds) (seen, []) = false
reaches a (suc rounds) (seen, s ∷ stack) =
    let rest = reaches a rounds (see_rules (rules_of (get_elem? a.states s)) (seen, stack)) in
    if is_accepting_state a s then true else rest

unfoldable pub check_reachable_accept : CompiledAutomaton → String → Lowered (Unit {0})
unfolding reaches
check_reachable_accept a start =
    if reaches a (suc max_states)
      (modify (replicate (length a.states) false) a.start (λ _. true), a.start ∷ [])
    then ok tt
    else err (no_reachable_accept start)
