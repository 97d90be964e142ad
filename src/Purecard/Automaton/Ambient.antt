-- ===== src/Purecard/Automaton/Ambient.antt =====
-- When a probe over the empty stack speaks for every stack. The hand-written automaton is blind to
-- the stack in this sense; a supplied table need not be.
use pure_analyzer.Shared.{
  ℕ, zero, suc, ◌<◌, true, false, ◌&&◌, Option, none, some, List, [], ◌∷◌, ◌++◌, ◌≡◌, ◌≢◌, refl,
  ◌∙◌, arith, ◌==◌, Bool-cases, inl, inr, length, get_elem?,
}
use pure_analyzer.Shared.Every.{All}
use pure_analyzer.Purecard.Automaton.{
  Step, CompiledState, CompiledAutomaton, CompiledAction, selected, resolve, step_from, step,
  RtnPda, last, popped, admits_from, admits, is_dead, any_alive, consults_ambient, probe_from,
  probe,
}

-- A byte that is taken over the empty stack is taken in the same way over every declared frame.
abbrev pub IsStackBlind : CompiledAutomaton → Type 0
IsStackBlind a =
    (s f b : ℕ)
    → f < a.frame_count
    → is_dead (step a s none b) ≡ false
    → step a s (some f) b ≡ step a s none b

-- Only declared frames are pushed.
abbrev pub PushesDeclared : CompiledAutomaton → Type 0
PushesDeclared a =
    (s b f t : ℕ) (top : Option ℕ) → step a s top b ≡ Step.push f t → f < a.frame_count

abbrev pub IsDeclared : CompiledAutomaton → ℕ → Type 0
IsDeclared a f = f < a.frame_count

resolve-ne-pop :
    (c : CompiledAction) (again : ℕ → Step) (t : ℕ)
    → ((u : ℕ) → again u ≢ Step.pop t)
    → resolve c none again ≢ Step.pop t
resolve-ne-pop (CompiledAction.next u) again t k h = cc
resolve-ne-pop (CompiledAction.push f u) again t k h = cc
resolve-ne-pop (CompiledAction.pop u) again t k h = cc
resolve-ne-pop (CompiledAction.goto u) again t k h = k u h
resolve-ne-pop CompiledAction.dead again t k h = cc

step_from-ne-pop :
    (states : List CompiledState) (rounds s t b : ℕ) → step_from states rounds s none b ≢ Step.pop t
unfolding step_from
step_from-ne-pop states zero s t b h = cc
step_from-ne-pop states (suc rounds) s t b h =
    resolve-ne-pop (selected (get_elem? states s) none b) (λ u. step_from states rounds u none b) t
      (λ u. step_from-ne-pop states rounds u t b) h

step-ne-pop : (a : CompiledAutomaton) (s t b : ℕ) → step a s none b ≢ Step.pop t
unfolding step
step-ne-pop a s t b = step_from-ne-pop a.states (suc (length a.states)) s t b

any_alive-false :
    (a : CompiledAutomaton) (s b n f : ℕ)
    → any_alive a s b n ≡ false
    → f < n
    → is_dead (step a s (some f) b) ≡ true
any_alive-false a s b zero f h lt = absurd (omega arith)
any_alive-false a s b (suc n) f h lt = elim (Bool-cases (f == n)) [
  | inl e ↦ let same : f ≡ n = ground arith in rw same (ground arith)
  | inr e ↦ any_alive-false a s b n f (ground arith) (ground arith)
]

module _ (a : CompiledAutomaton) (blind : IsStackBlind a) where
  step-append :
      (s : ℕ) (stack ambient : List ℕ) (b : ℕ)
      → All (IsDeclared a) ambient
      → is_dead (step a s (last stack) b) ≡ false
      → step a s (last (stack ++ ambient)) b ≡ step a s (last stack) b
  step-append s (f ∷ fs) ambient b d h = refl
  step-append s [] [] b d h = refl
  step-append s [] (g ∷ gs) b d h = blind s g b d.0 h

  dead-append :
      (s : ℕ) (stack ambient : List ℕ) (b : ℕ)
      → All (IsDeclared a) ambient
      → step a s (last stack) b ≡ Step.dead
      → consults_ambient a s stack b ≡ false
      → is_dead (step a s (last (stack ++ ambient)) b) ≡ true
  unfolding consults_ambient
  dead-append s (f ∷ fs) ambient b d e h = rw e refl
  dead-append s [] [] b d e h = rw e refl
  dead-append s [] (g ∷ gs) b d e h = any_alive-false a s b a.frame_count g h d.0

  abbrev Agrees : List ℕ → Type 0
  Agrees bs =
      (s : ℕ) (stack ambient : List ℕ)
      → All (IsDeclared a) ambient
      → (probe_from a s stack bs).consulted_ambient ≡ false
      → admits_from a s (stack ++ ambient) bs ≡ (probe_from a s stack bs).alive

  Agrees-step :
      (bs : List ℕ)
      → Agrees bs
      → (s : ℕ) (stack ambient : List ℕ) (b : ℕ) (r : Step) → step a s (last stack) b ≡ r
      → All (IsDeclared a) ambient
      → (probe_from a s stack (b ∷ bs)).consulted_ambient ≡ false
      → admits_from a s (stack ++ ambient) (b ∷ bs) ≡ (probe_from a s stack (b ∷ bs)).alive
  unfolding admits_from probe_from
  Agrees-step bs ih s stack ambient b (Step.next t) e d h =
      let same = step-append s stack ambient b d (rw e refl) ∙ e in
      ground (arith, ih t stack ambient d)
  Agrees-step bs ih s stack ambient b (Step.push f t) e d h =
      let same = step-append s stack ambient b d (rw e refl) ∙ e in
      ground (arith, ih t (f ∷ stack) ambient d)
  Agrees-step bs ih s [] ambient b (Step.pop t) e d h = absurd (step-ne-pop a s t b e)
  Agrees-step bs ih s (f ∷ fs) ambient b (Step.pop t) e d h = ground (arith, ih t fs ambient d)
  Agrees-step bs ih s stack ambient b Step.dead e d h =
      ground (arith, dead-append s stack ambient b d e)

  probe_from-append : (bs : List ℕ) → Agrees bs
  unfolding admits_from probe_from
  probe_from-append [] s stack ambient d h = refl
  probe_from-append (b ∷ bs) s stack ambient d h =
      Agrees-step bs (probe_from-append bs) s stack ambient b (step a s (last stack) b) refl d h

abbrev pub over : RtnPda → List ℕ → RtnPda
over p ambient = record p { stack = p.stack ++ ambient }

-- Over an automaton that takes each byte of the empty stack in the same way under every declared frame,
-- a probe that did not consult the ambient stack has the verdict of `admits` over every stack of
-- declared frames below the probed one.
pub probe-rtn-over :
    (a : CompiledAutomaton) (p : RtnPda) (ambient : List ℕ) (bytes : List ℕ)
    → IsStackBlind a
    → All (IsDeclared a) ambient
    → (probe a p bytes).consulted_ambient ≡ false
    → admits a (over p ambient) bytes ≡ (probe a p bytes).alive
unfolding probe admits
probe-rtn-over a p ambient bytes blind d h =
    probe_from-append a blind bytes p.state p.stack ambient d h

-- A probe and `admits` of the same configuration agree, and a probe that asks for the ambient stack
-- has died.
abbrev Consistent : CompiledAutomaton → List ℕ → Type 0
Consistent a bs =
    (s : ℕ) (stack : List ℕ)
    → ((probe_from a s stack bs).alive ≡ admits_from a s stack bs)
      × (((probe_from a s stack bs).consulted_ambient && (probe_from a s stack bs).alive) ≡ false)

Consistent-step :
    (a : CompiledAutomaton) (b : ℕ) (bs : List ℕ)
    → Consistent a bs
    → (s : ℕ) (stack : List ℕ) (r : Step) → step a s (last stack) b ≡ r
    → ((probe_from a s stack (b ∷ bs)).alive ≡ admits_from a s stack (b ∷ bs))
      × (((probe_from a s stack (b ∷ bs)).consulted_ambient
            && (probe_from a s stack (b ∷ bs)).alive)
          ≡ false)
unfolding probe_from admits_from
Consistent-step a b bs ih s stack (Step.next t) e = ground (arith, ih t stack)
Consistent-step a b bs ih s stack (Step.push f t) e = ground (arith, ih t (f ∷ stack))
Consistent-step a b bs ih s stack (Step.pop t) e = ground (arith, ih t (popped stack))
Consistent-step a b bs ih s stack Step.dead e = ground arith

consistent : (a : CompiledAutomaton) (bs : List ℕ) → Consistent a bs
unfolding probe_from admits_from
consistent a [] s stack = (refl, refl)
consistent a (b ∷ bs) s stack =
    Consistent-step a b bs (consistent a bs) s stack (step a s (last stack) b) refl

pub probe-rtn-alone :
    (a : CompiledAutomaton) (p : RtnPda) (bytes : List ℕ)
    → ((probe a p bytes).alive ≡ admits a p bytes)
      × (((probe a p bytes).consulted_ambient && (probe a p bytes).alive) ≡ false)
unfolding probe admits
probe-rtn-alone a p bytes = consistent a bytes p.state p.stack
