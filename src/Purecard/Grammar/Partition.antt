-- ===== src/Purecard/Grammar/Partition.antt =====
-- What a probe from a short stack says of every longer one: the partition of the vocabulary into
-- verdicts that are cached and verdicts that are taken again at each step rests on it.
use pure_analyzer.Shared.{ℕ, false, List, [], ◌∷◌, ◌++◌, ◌≡◌, refl, arith}
use pure_analyzer.Purecard.Grammar.State.{State, Frame, Step, next, push, pop, dead}
use pure_analyzer.Purecard.Grammar.Dispatch.{step}
use pure_analyzer.Purecard.Grammar.Pda.{Pda, last, popped, admits_from, admits, probe_from, probe}
use pure_analyzer.Purecard.Grammar.Stable.{step-ne-pop, step-append, dead-append}

-- The claim for one stream and every configuration that it may start from.
abbrev Agrees : List ℕ → Type 0
Agrees bs =
    (s : State) (stack ambient : List Frame)
    → (probe_from s stack bs).consulted_ambient ≡ false
    → admits_from s (stack ++ ambient) bs ≡ (probe_from s stack bs).alive

popped-append :
    (s t : State) (stack ambient : List Frame) (b : ℕ)
    → step s (last stack) b ≡ pop t
    → popped (stack ++ ambient) ≡ popped stack ++ ambient
popped-append s t [] ambient b e = absurd (step-ne-pop s t b e)
popped-append s t (f ∷ fs) ambient b e = refl

Agrees-step :
    (bs : List ℕ)
    → Agrees bs
    → (s : State) (stack ambient : List Frame) (b : ℕ) (r : Step) → step s (last stack) b ≡ r
    → (probe_from s stack (b ∷ bs)).consulted_ambient ≡ false
    → admits_from s (stack ++ ambient) (b ∷ bs) ≡ (probe_from s stack (b ∷ bs)).alive
unfolding admits_from probe_from
Agrees-step bs ih s stack ambient b (next t) e h =
    ground (arith, step-append s stack ambient b, ih t stack ambient)
Agrees-step bs ih s stack ambient b (push f t) e h =
    ground (arith, step-append s stack ambient b, ih t (f ∷ stack) ambient)
Agrees-step bs ih s stack ambient b (pop t) e h = ground (
  arith,
  step-append s stack ambient b,
  popped-append s t stack ambient b,
  ih t (popped stack) ambient,
)
Agrees-step bs ih s stack ambient b dead e h = ground (arith, dead-append s stack ambient b)

probe_from-append : (bs : List ℕ) → Agrees bs
unfolding admits_from probe_from
probe_from-append [] s stack ambient h = refl
probe_from-append (b ∷ bs) s stack ambient h =
    Agrees-step bs (probe_from-append bs) s stack ambient b (step s (last stack) b) refl h

abbrev pub over : Pda → List Frame → Pda
over p ambient = record p { stack = p.stack ++ ambient }

-- A probe that did not consult the ambient stack gives the verdict of `admits` over every stack
-- whose top part is the stack probed, whatever frames lie below.
pub probe-admits-over :
    (p : Pda) (ambient : List Frame) (bytes : List ℕ)
    → (probe p bytes).consulted_ambient ≡ false
    → admits (over p ambient) bytes ≡ (probe p bytes).alive
unfolding probe admits
probe-admits-over p ambient bytes = probe_from-append bytes p.state p.stack ambient
