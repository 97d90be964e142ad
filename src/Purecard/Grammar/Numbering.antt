-- ===== src/Purecard/Grammar/Numbering.antt =====
-- `index` numbers the states one by one, and a refusal's report names the configuration.
use Prim.Native.String.{String}
use mathlib.Core.Option.{some-injective}
use text.Mathlib.Text.{◌==◌ as str_eq}
use pure_analyzer.Shared.{
  ℕ, ◌<◌, Bool, true, false, Option, none, some, List, [], ◌∷◌, ◌≡◌, refl, ap, sym, ◌∙◌, arith,
  ◌==◌, if◌then◌else◌, Bool-cases, inl, inr, holds_below, of_holds_below,
}
use pure_analyzer.Purecard.Grammar.State.{
  State, in_str_lit, in_rel_col_str_lit, Frame, paren, group, bracket, brace, brace_lambda,
  rel_col_bracket, Step, next, push, pop, dead,
}
use pure_analyzer.Purecard.Grammar.Names.{name, frame_name}
use pure_analyzer.Purecard.Grammar.Index.{index, state_count, all_states}
use pure_analyzer.Purecard.Grammar.Dispatch.{step}
use pure_analyzer.Purecard.Grammar.Pda.{
  Result, ok, err, DeadState, Pda, last, stack_top_name, apply, advance,
}

state_at : ℕ → List State → Option State
state_at i [] = none
state_at i (s ∷ ss) = if index s == i then some s else state_at i ss

state_at-index : (s : State) → (index s < state_count) × (state_at (index s) all_states ≡ some s)
unfolding state_at index
state_at-index (in_str_lit true) = (omega arith, refl)
state_at-index (in_str_lit false) = (omega arith, refl)
state_at-index (in_rel_col_str_lit true) = (omega arith, refl)
state_at-index (in_rel_col_str_lit false) = (omega arith, refl)
state_at-index _ = (omega arith, refl)

==→≡ : (a b : ℕ) → (a == b) ≡ true → a ≡ b
==→≡ a b h = ground arith

index-state_at : (i : ℕ) (ss : List State) (s : State) → state_at i ss ≡ some s → index s ≡ i
unfolding state_at
index-state_at i [] s h = cc
index-state_at i (t ∷ ss) s h = elim (Bool-cases (index t == i)) [
  | inl e ↦ ap index (some-injective s t (sym (rw e at h))) ∙ ==→≡ (index t) i e
  | inr e ↦ index-state_at i ss s (rw e at h)
]

abbrev found : Option State → Bool
found none = false
found (some s) = true

all_found : holds_below (λ i. found (state_at i all_states)) state_count ≡ true
unfolding holds_below state_at index
all_found = refl

state_of_found : (o : Option State) → found o ≡ true → (s : State) × (o ≡ some s)
state_of_found none h = cc
state_of_found (some s) h = (s, refl)

index-injective : (s t : State) → index s ≡ index t → s ≡ t
index-injective s t e =
    cc ((state_at-index s).1, (state_at-index t).1, ap (λ i. state_at i all_states) e)

index-surjective : (i : ℕ) → i < state_count → (s : State) × (index s ≡ i)
index-surjective i h =
    let (s, e) =
      state_of_found (state_at i all_states)
        (of_holds_below (λ i. found (state_at i all_states)) state_count h all_found) in
    (s, index-state_at i all_states s e)

-- The numbering of the states is one to one and onto the numbers below `COUNT`.
pub index-bijection :
    ((s t : State) → index s ≡ index t → s ≡ t)
    × ((s : State) → index s < state_count)
    × ((i : ℕ) → i < state_count → (s : State) × (index s ≡ i))
index-bijection = (index-injective, λ s. (state_at-index s).0, index-surjective)

state_named : String → List State → Option State
state_named n [] = none
state_named n (s ∷ ss) = if str_eq (name s) n then some s else state_named n ss

state_named-name : (s : State) → state_named (name s) all_states ≡ some s
unfolding state_named name
state_named-name (in_str_lit true) = refl
state_named-name (in_str_lit false) = refl
state_named-name (in_rel_col_str_lit true) = refl
state_named-name (in_rel_col_str_lit false) = refl
state_named-name _ = refl

tops : List (Option Frame)
tops =
    none
    ∷ some paren
    ∷ some group
    ∷ some bracket
    ∷ some brace
    ∷ some brace_lambda
    ∷ some rel_col_bracket
    ∷ []

top_named : String → List (Option Frame) → Option (Option Frame)
top_named n [] = none
top_named n (f ∷ fs) = if str_eq (stack_top_name f) n then some f else top_named n fs

top_named-name : (top : Option Frame) → top_named (stack_top_name top) tops ≡ some top
unfolding top_named frame_name tops
top_named-name none = refl
top_named-name (some paren) = refl
top_named-name (some _) = refl

state_of : Result Pda → String
state_of (ok p) = ""
state_of (err d) = d.state

top_of : Result Pda → String
top_of (ok p) = ""
top_of (err d) = d.stack_top

advance-err :
    (p : Pda) (b : ℕ) (d : DeadState)
    → advance p b ≡ err d
    → (name p.state ≡ d.state) × (stack_top_name (last p.stack) ≡ d.stack_top)
unfolding advance state_of top_of
advance-err p b d h = apply-err (step p.state (last p.stack) b) h
  where
    apply-err :
        (r : Step)
        → apply p r ≡ err d
        → (name p.state ≡ d.state) × (stack_top_name (last p.stack) ≡ d.stack_top)
    apply-err dead h = (ap (λ r. state_of r) h, ap (λ r. top_of r) h)
    apply-err (next s) h = cc
    apply-err (push f s) h = cc
    apply-err (pop s) h = cc

-- The report of a refused byte gives the state and the top frame of the automaton: two refusals
-- with one report come from configurations that agree in both.
pub advance-err_injective :
    (p q : Pda) (b c : ℕ) (d : DeadState)
    → advance p b ≡ err d
    → advance q c ≡ err d
    → (p.state ≡ q.state) × (last p.stack ≡ last q.stack)
unfolding advance
advance-err_injective p q b c d h k = (
  some-injective p.state q.state (
      sym (state_named-name p.state)
      ∙ ap (λ n. state_named n all_states) ((advance-err p b d h).0 ∙ sym (advance-err q c d k).0)
      ∙ state_named-name q.state),
  some-injective (last p.stack) (last q.stack) (
      sym (top_named-name (last p.stack))
      ∙ ap (λ n. top_named n tops) ((advance-err p b d h).1 ∙ sym (advance-err q c d k).1)
      ∙ top_named-name (last q.stack)),
)
