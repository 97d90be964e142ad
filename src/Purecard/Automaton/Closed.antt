-- ===== src/Purecard/Automaton/Closed.antt =====
-- What a spec that is accepted gives: no id leads out of the tables, and nothing pops the empty stack.
use Prim.Native.String.{String}
use text.Mathlib.Text.{◌==◌ as str_eq}
use mathlib.Core.Path.{subst}
use pure_analyzer.Shared.{
  ℕ, suc, ◌<◌, true, Option, none, some, List, [], ◌∷◌, ◌++◌, ◌≡◌, refl, sym, ap, ◌∙◌, arith, ltb,
  Bool-cases, Option-cases, inl, inr, length,
}
use pure_analyzer.Shared.Every.{All, All-append}
use pure_analyzer.Purecard.Spec.{
  Action, TransitionRule, StateSpec, SpecError, unguarded_pop, too_many_rules, max_rules_per_state,
}
use pure_analyzer.Purecard.Automaton.{CompiledGuard, CompiledAction, CompiledRule, CompiledState}
use pure_analyzer.Purecard.Automaton.Lower.{
  Lowered, ok, err, ◌>>=◌, one_later, id_of, or_err, Place, resolve_frame, resolve_state,
  compile_guard, compile_action, proves_non_empty, check_shadowing, lower_rule, lower_rules,
  lower_state, lower_states,
}
use pure_analyzer.Purecard.Automaton.Graph.{names_of}

pub bind-ok {ℓ κ} :
    {B : Type κ} {A : Type ℓ} {end : B} (start : Lowered A) (next : A → Lowered B)
    → (start >>= next) ≡ ok end
    → (middle : A) × (start ≡ ok middle) × (next middle ≡ ok end)
bind-ok (err why) next h = cc
bind-ok (ok value) next h = (value, refl, h)

pub refused {ℓ} : {A : Type ℓ} (e : SpecError) (a : A) → err e ≡ ok a → ⊥
refused e a h = cc

pub id_of-lt :
    (names : List String) (n : String) (i : ℕ) → id_of names n ≡ some i → i < length names
unfolding id_of
id_of-lt [] n i h = absurd (cc)
id_of-lt (m ∷ ms) n i h = elim (Bool-cases (str_eq m n)) [
  | inl e ↦ let first : i ≡ 0 = (sym (some_inj 0 i (rw e at h))) in omega arith
  | inr e ↦ by_rest (id_of ms n) refl (rw e at h) (λ j q. id_of-lt ms n j q)
]
  where
    some_inj : (x y : ℕ) → some x ≡ some y → x ≡ y
    some_inj x y q = cc

    by_rest :
        (o : Option ℕ)
        → id_of ms n ≡ o
        → one_later o ≡ some i
        → ((j : ℕ) → id_of ms n ≡ some j → j < length ms)
        → i < suc (length ms)
    by_rest none e q ih = absurd (cc)
    by_rest (some j) e q ih = let same : suc j ≡ i = some_inj (suc j) i q in omega (arith, ih j e)

pub resolve-lt :
    (e : SpecError) (names : List String) (n : String) (i : ℕ)
    → or_err e (id_of names n) ≡ ok i
    → i < length names
resolve-lt e names n i h = elim (Option-cases (id_of names n)) [
  | inl q ↦ absurd (refused e i (rw q at h))
  | inr (j, q) ↦ id_of-lt names n i (q ∙ same j (rw q at h))
]
  where
    same : (j : ℕ) → ok j ≡ ok i → some j ≡ some i
    same j q = cc

-- The ids of an action are those of declared states and frames.
abbrev pub ActionIsClosed : ℕ → ℕ → CompiledAction → Type 0
ActionIsClosed states frames (CompiledAction.next t) = t < states
ActionIsClosed states frames (CompiledAction.push f t) = (f < frames) × (t < states)
ActionIsClosed states frames (CompiledAction.pop t) = t < states
ActionIsClosed states frames (CompiledAction.goto t) = t < states
ActionIsClosed states frames CompiledAction.dead = Unit

abbrev pub PopIsGuarded : CompiledGuard → CompiledAction → Type 0
PopIsGuarded g (CompiledAction.pop t) = proves_non_empty g ≡ true
PopIsGuarded g _ = Unit

abbrev pub RuleIsClosed : ℕ → ℕ → CompiledRule → Type 0
RuleIsClosed states frames r = ActionIsClosed states frames r.action × PopIsGuarded r.guard r.action

pub ok-injective {ℓ} : {A : Type ℓ} (a b : A) → ok a ≡ ok b → a ≡ b
ok-injective a b h = cc

compile_action-closed :
    (p : Place) (states frames : List String) (g : CompiledGuard) (act : Action)
    (c : CompiledAction)
    → compile_action p states frames g act ≡ ok c
    → ActionIsClosed (length states) (length frames) c × PopIsGuarded g c
unfolding compile_action
compile_action-closed p states frames g (Action.next t) c h =
    let (s, e, k) = bind-ok (resolve_state p states t) _ h in
    subst (λ x. ActionIsClosed (length states) (length frames) x × PopIsGuarded g x)
      (ok-injective (CompiledAction.next s) c k) (resolve-lt _ states t s e, tt)
compile_action-closed p states frames g (Action.push f t) c h =
    let (i, d, q) = bind-ok (resolve_frame p frames f) _ h in
    let (s, e, k) = bind-ok (resolve_state p states t) _ q in
    subst (λ x. ActionIsClosed (length states) (length frames) x × PopIsGuarded g x)
      (ok-injective (CompiledAction.push i s) c k)
      ((resolve-lt _ frames f i d, resolve-lt _ states t s e), tt)
compile_action-closed p states frames g (Action.pop t) c h =
    elim (Bool-cases (proves_non_empty g)) [
      | inl guarded ↦
          let (s, e, k) = bind-ok (resolve_state p states t) _ (rw guarded at h) in
          subst (λ x. ActionIsClosed (length states) (length frames) x × PopIsGuarded g x)
            (ok-injective (CompiledAction.pop s) c k) (resolve-lt _ states t s e, guarded)
      | inr free ↦ absurd (refused (unguarded_pop p.state p.rule_index) c (rw free at h))
    ]
compile_action-closed p states frames g (Action.goto t) c h =
    let (s, e, k) = bind-ok (resolve_state p states t) _ h in
    subst (λ x. ActionIsClosed (length states) (length frames) x × PopIsGuarded g x)
      (ok-injective (CompiledAction.goto s) c k) (resolve-lt _ states t s e, tt)
compile_action-closed p states frames g Action.dead c h =
    subst (λ x. ActionIsClosed (length states) (length frames) x × PopIsGuarded g x)
      (ok-injective CompiledAction.dead c h) (tt, tt)

lower_rule-closed :
    (p : Place) (states frames : List String) (earlier : List CompiledRule) (r : TransitionRule)
    (c : CompiledRule)
    → lower_rule p states frames earlier r ≡ ok c
    → RuleIsClosed (length states) (length frames) c
unfolding lower_rule
lower_rule-closed p states frames earlier r c h =
    let (g, d, q) = bind-ok (compile_guard p frames r.guard) _ h in
    let (a, e, k) = bind-ok (compile_action p states frames g r.action) _ q in
    let (u, f, l) = bind-ok (check_shadowing p r.byte_test g 0 earlier) _ k in
    subst (RuleIsClosed (length states) (length frames)) (ok-injective _ c l)
      (compile_action-closed p states frames g r.action a e)

lower_rules-closed :
    (states frames : List String) (n : String) (i : ℕ) (earlier : List CompiledRule)
    (rs : List TransitionRule) (cs : List CompiledRule)
    → All (RuleIsClosed (length states) (length frames)) earlier
    → lower_rules states frames n i earlier rs ≡ ok cs
    → All (RuleIsClosed (length states) (length frames)) cs
unfolding lower_rules
lower_rules-closed states frames n i earlier [] cs v h =
    subst (All (RuleIsClosed (length states) (length frames))) (ok-injective earlier cs h) v
lower_rules-closed states frames n i earlier (r ∷ rs) cs v h =
    let (c, e, k) =
      bind-ok (lower_rule (record { state = n; rule_index = i }) states frames earlier r) _ h in
    lower_rules-closed states frames n (suc i) (earlier ++ c ∷ []) rs cs
      (All-append (RuleIsClosed (length states) (length frames)) earlier (c ∷ []) v
        (lower_rule-closed (record { state = n; rule_index = i }) states frames earlier r c e, tt))
      k

abbrev pub StateIsClosed : ℕ → ℕ → CompiledState → Type 0
StateIsClosed states frames s = All (RuleIsClosed states frames) s.rules

lower_state-closed :
    (states frames : List String) (n : String) (s : StateSpec) (c : CompiledState)
    → lower_state states frames n s ≡ ok c
    → StateIsClosed (length states) (length frames) c
unfolding lower_state
lower_state-closed states frames n s c h =
    elim (Bool-cases (ltb max_rules_per_state (length s.rules))) [
      | inl e ↦ absurd (refused (too_many_rules n (length s.rules)) c (rw e at h))
      | inr e ↦
          let (rules, q, k) = bind-ok (lower_rules states frames n 0 [] s.rules) _ (rw e at h) in
          subst (StateIsClosed (length states) (length frames)) (ok-injective _ c k)
            (lower_rules-closed states frames n 0 [] s.rules rules tt q)
    ]

pub lower_states-closed :
    (states frames : List String) (ss : List (String × StateSpec)) (cs : List CompiledState)
    → lower_states states frames ss ≡ ok cs
    → All (StateIsClosed (length states) (length frames)) cs × (length cs ≡ length (names_of ss))
unfolding lower_states
lower_states-closed states frames [] cs h =
    subst (λ l. All (StateIsClosed (length states) (length frames)) l × (length l ≡ 0))
      (ok-injective [] cs h) (tt, refl)
lower_states-closed states frames ((n, s) ∷ rest) cs h =
    let (c, e, k) = bind-ok (lower_state states frames n s) _ h in
    let (ds, q, l) = bind-ok (lower_states states frames rest) _ k in
    let (v, w) = lower_states-closed states frames rest ds q in
    subst
      (λ l.
        All (StateIsClosed (length states) (length frames)) l
        × (length l ≡ suc (length (names_of rest))))
      (ok-injective (c ∷ ds) cs l) ((lower_state-closed states frames n s c e, v), ap suc w)
