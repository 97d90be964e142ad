-- ===== src/Purecard/Automaton/Lower.antt =====
-- crates/pure-analyzer-purecard/src/grammar/compile.rs: the lowering of guards, actions and rules. A
-- name's id is its place in the list of names, as `enumerate` gives it.
use Prim.Native.String.{String}
use text.Mathlib.Text.{◌==◌ as str_eq}
use pure_analyzer.Shared.{
  ℕ, suc, Bool, true, false, not, ◌&&◌, Option, none, some, List, [], ◌∷◌, ◌++◌, ◌==◌, ltb,
  if◌then◌else◌, length,
}
use pure_analyzer.Purecard.Spec.{
  ByteTest, Guard, Action, TransitionRule, StateSpec, SpecError, unknown_target_state,
  unknown_frame, too_many_rules, ambiguous_transition, unreachable_rule, unguarded_pop,
  max_rules_per_state, is_subsumed_by,
}
use pure_analyzer.Purecard.Automaton.{CompiledGuard, CompiledAction, CompiledRule, CompiledState}

pub data Lowered {ℓ} (A : Type ℓ) : Type ℓ where
  ok : A → Lowered A
  err : SpecError → Lowered A

infixl 5 ◌>>=◌
abbrev pub ◌>>=◌ {ℓ κ} : {B : Type κ} {A : Type ℓ} → Lowered A → (next : A → Lowered B) → Lowered B
err why >>= next = err why
ok value >>= next = next value

abbrev pub one_later : Option ℕ → Option ℕ
one_later none = none
one_later (some i) = some (suc i)

-- The id of a name, the first that has it.
unfoldable pub id_of : List String → String → Option ℕ
id_of [] n = none
id_of (m ∷ ms) n = if str_eq m n then some 0 else one_later (id_of ms n)

abbrev pub or_err {ℓ} : {A : Type ℓ} → SpecError → Option A → Lowered A
or_err e none = err e
or_err e (some a) = ok a

-- Where a rule stands, for its errors.
pub record Place : Type 0 where
  pub state : String
  pub rule_index : ℕ

abbrev pub resolve_frame : Place → List String → String → Lowered ℕ
resolve_frame p frames f = or_err (unknown_frame p.state p.rule_index f) (id_of frames f)

abbrev pub resolve_state : Place → List String → String → Lowered ℕ
resolve_state p states s = or_err (unknown_target_state p.state p.rule_index s) (id_of states s)

unfoldable pub compile_guard : Place → List String → Guard → Lowered CompiledGuard
compile_guard p frames Guard.always = ok CompiledGuard.always
compile_guard p frames (Guard.stack_top_is f) =
    resolve_frame p frames f >>= λ i. ok (CompiledGuard.stack_top_is i)
compile_guard p frames (Guard.stack_top_is_not f) =
    resolve_frame p frames f >>= λ i. ok (CompiledGuard.stack_top_is_not i)
compile_guard p frames Guard.stack_non_empty = ok CompiledGuard.stack_non_empty
compile_guard p frames Guard.stack_empty = ok CompiledGuard.stack_empty

-- `matches!(guard, StackTopIs(_) | StackNonEmpty)`
abbrev pub proves_non_empty : CompiledGuard → Bool
proves_non_empty (CompiledGuard.stack_top_is f) = true
proves_non_empty CompiledGuard.stack_non_empty = true
proves_non_empty _ = false

unfoldable pub compile_action :
    Place → List String → List String → CompiledGuard → Action → Lowered CompiledAction
compile_action p states frames g (Action.next t) =
    resolve_state p states t >>= λ s. ok (CompiledAction.next s)
compile_action p states frames g (Action.push f t) =
    resolve_frame p frames f >>= λ i. resolve_state p states t >>= λ s. ok (CompiledAction.push i s)
compile_action p states frames g (Action.pop t) =
    if proves_non_empty g
    then (resolve_state p states t >>= λ s. ok (CompiledAction.pop s))
    else err (unguarded_pop p.state p.rule_index)
compile_action p states frames g (Action.goto t) =
    resolve_state p states t >>= λ s. ok (CompiledAction.goto s)
compile_action p states frames g Action.dead = ok CompiledAction.dead

unfoldable pub same_guard : CompiledGuard → CompiledGuard → Bool
same_guard CompiledGuard.always CompiledGuard.always = true
same_guard CompiledGuard.stack_non_empty CompiledGuard.stack_non_empty = true
same_guard CompiledGuard.stack_empty CompiledGuard.stack_empty = true
same_guard (CompiledGuard.stack_top_is x) (CompiledGuard.stack_top_is y) = x == y
same_guard (CompiledGuard.stack_top_is_not x) (CompiledGuard.stack_top_is_not y) = x == y
same_guard _ _ = false

abbrev same_bytes : List ℕ → List ℕ → Bool
same_bytes [] [] = true
same_bytes (x ∷ xs) (y ∷ ys) = x == y && same_bytes xs ys
same_bytes _ _ = false

-- The derived equality of byte tests.
unfoldable pub test_eq : ByteTest → ByteTest → Bool
test_eq ByteTest.whitespace ByteTest.whitespace = true
test_eq ByteTest.ident_start ByteTest.ident_start = true
test_eq ByteTest.ident_tail ByteTest.ident_tail = true
test_eq ByteTest.digit ByteTest.digit = true
test_eq ByteTest.any ByteTest.any = true
test_eq (ByteTest.exact x) (ByteTest.exact y) = x == y
test_eq (ByteTest.one_of xs) (ByteTest.one_of ys) = same_bytes xs ys
test_eq (ByteTest.none_of xs) (ByteTest.none_of ys) = same_bytes xs ys
test_eq _ _ = false

-- The loop over the earlier rules, the first of them numbered `earlier_index`.
unfoldable pub check_shadowing :
    Place → ByteTest → CompiledGuard → ℕ → List CompiledRule → Lowered (Unit {0})
unfolding same_guard test_eq is_subsumed_by
check_shadowing p test g earlier_index [] = ok tt
check_shadowing p test g earlier_index (r ∷ rs) =
    let rest = check_shadowing p test g (suc earlier_index) rs in
    if not (same_guard r.guard g)
    then rest
    else if test_eq test r.byte_test
    then err (ambiguous_transition p.state earlier_index p.rule_index)
    else if is_subsumed_by test r.byte_test
    then err (unreachable_rule p.state p.rule_index earlier_index)
    else rest

-- One round of the loop over a state's rules.
unfoldable pub lower_rule :
    Place → List String → List String → List CompiledRule → TransitionRule → Lowered CompiledRule
unfolding compile_guard compile_action check_shadowing
lower_rule p states frames earlier r = compile_guard p frames r.guard >>= λ g.
    compile_action p states frames g r.action >>= λ a.
    check_shadowing p r.byte_test g 0 earlier >>= λ _.
    ok (record { byte_test = r.byte_test; guard = g; action = a })

unfoldable pub lower_rules :
    List String
    → List String
    → String
    → ℕ
    → List CompiledRule
    → List TransitionRule
    → Lowered (List CompiledRule)
unfolding lower_rule
lower_rules states frames n i earlier [] = ok earlier
lower_rules states frames n i earlier (r ∷ rs) =
    lower_rule (record { state = n; rule_index = i }) states frames earlier r >>= λ c.
    lower_rules states frames n (suc i) (earlier ++ c ∷ []) rs

unfoldable pub lower_state : List String → List String → String → StateSpec → Lowered CompiledState
unfolding lower_rules
lower_state states frames n s =
    if ltb max_rules_per_state (length s.rules)
    then err (too_many_rules n (length s.rules))
    else lower_rules states frames n 0 [] s.rules >>= λ rules.
        ok (record { accepting = s.accepting; rules = rules })

-- The states come in the order of their ids, so the sort by id that follows changes nothing.
unfoldable pub lower_states :
    List String → List String → List (String × StateSpec) → Lowered (List CompiledState)
unfolding lower_state
lower_states states frames [] = ok []
lower_states states frames ((n, s) ∷ rest) =
    lower_state states frames n s >>= λ c. lower_states states frames rest >>= λ cs. ok (c ∷ cs)
