-- ===== src/Purecard/Automaton/Edges.antt =====
-- Each `Goto` of a lowered rule is an edge of the graph that was searched.
use Prim.Native.String.{String}
use mathlib.Core.Path.{subst}
use pure_analyzer.Shared.{
  ℕ, zero, suc, ◌&&◌, Option, some, List, [], ◌∷◌, ◌++◌, ◌≡◌, ap, ltb, Bool-cases, Option-cases,
  inl, inr, length, get_elem?, map,
}
use pure_analyzer.Shared.Cells.{get_or}
use pure_analyzer.Shared.Every.{All, All-append}
use pure_analyzer.Purecard.Spec
use pure_analyzer.Purecard.Spec.{
  Action, TransitionRule, StateSpec, GrammarSpecV1, SpecError, matches,
}
use pure_analyzer.Purecard.Automaton.{
  CompiledGuard, CompiledAction, CompiledRule, CompiledState, guard_matches, select, selected,
}
use pure_analyzer.Purecard.Automaton.Lower.{
  ok, id_of, Place, resolve_frame, resolve_state, compile_guard, compile_action, proves_non_empty,
  check_shadowing, lower_rule, lower_rules, lower_state, lower_states,
}
use pure_analyzer.Purecard.Automaton.Graph.{edge_to, goto_of, goto_edges, state_edges, targets}
use pure_analyzer.Purecard.Automaton.Closed.{bind-ok, refused, ok-injective}

-- The target stands among the edges.
abbrev pub Listed : List ℕ → ℕ → Type 0
Listed es t = (k : ℕ) × (get_elem? es k ≡ some t)

abbrev pub GotoIn : List ℕ → CompiledAction → Type 0
GotoIn es (CompiledAction.goto t) = Listed es t
GotoIn es _ = Unit

abbrev pub RuleIn : List ℕ → CompiledRule → Type 0
RuleIn es r = GotoIn es r.action

edge_targets : List (ℕ × ℕ) → List ℕ
edge_targets es = map (λ e. e.0) es

compile_action-GotoIn :
    (p : Place) (states frames : List String) (g : CompiledGuard) (act : Action)
    (c : CompiledAction) (i : ℕ) (es : List (ℕ × ℕ))
    → compile_action p states frames g act ≡ ok c
    → GotoIn (edge_targets (goto_of states i act es)) c
unfolding compile_action edge_targets
compile_action-GotoIn p states frames g (Action.next t) c i es h =
    let (s, e, k) = bind-ok (resolve_state p states t) _ h in
    subst (GotoIn (edge_targets es)) (ok-injective (CompiledAction.next s) c k) tt
compile_action-GotoIn p states frames g (Action.push f t) c i es h =
    let (n, d, q) = bind-ok (resolve_frame p frames f) _ h in
    let (s, e, k) = bind-ok (resolve_state p states t) _ q in
    subst (GotoIn (edge_targets es)) (ok-injective (CompiledAction.push n s) c k) tt
compile_action-GotoIn p states frames g (Action.pop t) c i es h =
    elim (Bool-cases (proves_non_empty g)) [
      | inl guarded ↦
          let (s, e, k) = bind-ok (resolve_state p states t) _ (rw guarded at h) in
          subst (GotoIn (edge_targets es)) (ok-injective (CompiledAction.pop s) c k) tt
      | inr free ↦ absurd (refused (Spec.unguarded_pop p.state p.rule_index) c (rw free at h))
    ]
compile_action-GotoIn p states frames g (Action.goto t) c i es h =
    let (s, e, k) = bind-ok (resolve_state p states t) _ h in
    subst (GotoIn (edge_targets (edge_to i (id_of states t) es)))
      (ok-injective (CompiledAction.goto s) c k)
      (elim (Option-cases (id_of states t)) [
        | inl q ↦ absurd (refused (Spec.unknown_target_state p.state p.rule_index t) s (rw q at e))
        | inr (j, q) ↦ rw q (0, ap some (ok-injective j s (rw q at e)))
      ])
compile_action-GotoIn p states frames g Action.dead c i es h =
    subst (GotoIn (edge_targets es)) (ok-injective CompiledAction.dead c h) tt

-- An edge of the later rules is one of all.
goto_of-kept :
    (states : List String) (i : ℕ) (act : Action) (es : List (ℕ × ℕ)) (t : ℕ)
    → Listed (edge_targets es) t
    → Listed (edge_targets (goto_of states i act es)) t
unfolding edge_targets
goto_of-kept states i (Action.next s) es t h = h
goto_of-kept states i (Action.push f s) es t h = h
goto_of-kept states i (Action.pop s) es t h = h
goto_of-kept states i (Action.goto s) es t (k, h) = elim (Option-cases (id_of states s)) [
  | inl q ↦ rw q (k, h)
  | inr (j, q) ↦ rw q (suc k, h)
]
goto_of-kept states i Action.dead es t h = h

lower_rule-GotoIn :
    (p : Place) (states frames : List String) (earlier : List CompiledRule) (r : TransitionRule)
    (c : CompiledRule) (i : ℕ) (es : List (ℕ × ℕ))
    → lower_rule p states frames earlier r ≡ ok c
    → RuleIn (edge_targets (goto_of states i r.action es)) c
unfolding lower_rule
lower_rule-GotoIn p states frames earlier r c i es h =
    let (g, d, q) = bind-ok (compile_guard p frames r.guard) _ h in
    let (a, e, k) = bind-ok (compile_action p states frames g r.action) _ q in
    let (u, f, l) = bind-ok (check_shadowing p r.byte_test g 0 earlier) _ k in
    subst (RuleIn (edge_targets (goto_of states i r.action es))) (ok-injective _ c l)
      (compile_action-GotoIn p states frames g r.action a i es e)

GotoIn-kept :
    (es full : List ℕ) (c : CompiledAction)
    → ((t : ℕ) → Listed es t → Listed full t)
    → GotoIn es c
    → GotoIn full c
GotoIn-kept es full (CompiledAction.goto t) k h = k t h
GotoIn-kept es full (CompiledAction.next t) k h = tt
GotoIn-kept es full (CompiledAction.push f t) k h = tt
GotoIn-kept es full (CompiledAction.pop t) k h = tt
GotoIn-kept es full CompiledAction.dead k h = tt

lower_rules-GotoIn :
    (states frames : List String) (n : String) (i : ℕ) (earlier : List CompiledRule)
    (rs : List TransitionRule) (cs : List CompiledRule) (full : List ℕ)
    → ((t : ℕ) → Listed (edge_targets (goto_edges states i rs)) t → Listed full t)
    → All (RuleIn full) earlier
    → lower_rules states frames n i earlier rs ≡ ok cs
    → All (RuleIn full) cs
unfolding lower_rules goto_edges
lower_rules-GotoIn states frames n i earlier [] cs full inc v h =
    subst (All (RuleIn full)) (ok-injective earlier cs h) v
lower_rules-GotoIn states frames n i earlier (r ∷ rs) cs full inc v h =
    let p : Place = record { state = n; rule_index = i } in
    let (c, e, k) = bind-ok (lower_rule p states frames earlier r) _ h in
    let later = goto_edges states (suc i) rs in
    lower_rules-GotoIn states frames n (suc i) (earlier ++ c ∷ []) rs cs full
      (λ t w. inc t (goto_of-kept states i r.action later t w))
      (All-append (RuleIn full) earlier (c ∷ []) v (
        GotoIn-kept (edge_targets (goto_of states i r.action later)) full c.action inc
            (lower_rule-GotoIn p states frames earlier r c i later e),
        tt,
      ))
      k

abbrev pub StateIn : List ℕ → CompiledState → Type 0
StateIn es s = All (RuleIn es) s.rules

-- The state of an id and the edges of that id.
abbrev pub StatesIn : List (List ℕ) → List CompiledState → Type 0
StatesIn [] [] = Unit
StatesIn (es ∷ ess) (s ∷ ss) = StateIn es s × StatesIn ess ss
StatesIn _ _ = ⊥

pub lower_states-StatesIn :
    (states frames : List String) (ss : List (String × StateSpec)) (cs : List CompiledState)
    → lower_states states frames ss ≡ ok cs
    → StatesIn (targets (state_edges states ss)) cs
unfolding lower_states lower_state edge_targets
lower_states-StatesIn states frames [] cs h = subst (StatesIn []) (ok-injective [] cs h) tt
lower_states-StatesIn states frames ((n, s) ∷ rest) cs h =
    let (c, e, k) = bind-ok (lower_state states frames n s) _ h in
    let (ds, q, l) = bind-ok (lower_states states frames rest) _ k in
    subst
      (StatesIn (edge_targets (goto_edges states 0 s.rules) ∷ targets (state_edges states rest)))
      (ok-injective (c ∷ ds) cs l) (of_state c e, lower_states-StatesIn states frames rest ds q)
  where
    of_state :
        (c : CompiledState)
        → lower_state states frames n s ≡ ok c
        → StateIn (edge_targets (goto_edges states 0 s.rules)) c
    of_state c e = elim (Bool-cases (ltb Spec.max_rules_per_state (length s.rules))) [
      | inl big ↦ absurd (refused (Spec.too_many_rules n (length s.rules)) c (rw big at e))
      | inr small ↦
          let (rules, q, k) =
            bind-ok (lower_rules states frames n 0 [] s.rules) _ (rw small at e) in
          subst (StateIn (edge_targets (goto_edges states 0 s.rules))) (ok-injective _ c k) (
            lower_rules-GotoIn states frames n 0 [] s.rules rules
              (edge_targets (goto_edges states 0 s.rules)) (λ t w. w) tt q)
    ]

select-GotoIn :
    (es : List ℕ) (rs : List CompiledRule) (top : Option ℕ) (b : ℕ)
    → All (RuleIn es) rs
    → GotoIn es (select rs top b)
unfolding select
select-GotoIn es [] top b v = tt
select-GotoIn es (r ∷ rs) top b (g, v) =
    elim (Bool-cases (matches r.byte_test b && guard_matches r.guard top)) [
      | inl e ↦ rw e g
      | inr e ↦ rw e (select-GotoIn es rs top b v)
    ]

-- A `Goto` that a state selects follows one of its edges.
pub selected-GotoIn :
    (edges : List (List ℕ)) (ss : List CompiledState) (s : ℕ) (top : Option ℕ) (b : ℕ)
    → StatesIn edges ss
    → GotoIn (get_or [] edges s) (selected (get_elem? ss s) top b)
selected-GotoIn [] [] s top b v = tt
selected-GotoIn (es ∷ ess) (x ∷ ss) zero top b v = select-GotoIn es x.rules top b v.0
selected-GotoIn (es ∷ ess) (x ∷ ss) (suc s) top b v = selected-GotoIn ess ss s top b v.1
selected-GotoIn [] (x ∷ ss) s top b v = absurd v
selected-GotoIn (es ∷ ess) [] s top b v = absurd v
