-- ===== src/Purecard/Grammar/Replay.antt =====
-- The replays of `admits` and `probe` over a scratch stack against the live automaton.
use pure_analyzer.Shared.{ℕ, Bool, true, false, List, [], ◌∷◌, ◌≡◌, refl, arith}
use pure_analyzer.Purecard.Grammar.State.{State, Frame, Step, next, push, pop, dead}
use pure_analyzer.Purecard.Grammar.Dispatch.{step}
use pure_analyzer.Purecard.Grammar.Pda.{
  Result, ok, err, Pda, last, popped, advance, run, admits_from, admits, probe_from, probe,
}

abbrev pub is_ok : Result Pda → Bool
is_ok (ok p) = true
is_ok (err d) = false

abbrev Replays : List ℕ → Type 0
Replays bs =
    (s : State) (stack : List Frame)
    → (admits_from s stack bs ≡ is_ok (run (record { state = s; stack = stack }) bs))
      × ((probe_from s stack bs).alive ≡ admits_from s stack bs)

Replays-step :
    (bs : List ℕ)
    → Replays bs
    → (s : State) (stack : List Frame) (b : ℕ) (r : Step) → step s (last stack) b ≡ r
    → (admits_from s stack (b ∷ bs) ≡ is_ok (run (record { state = s; stack = stack }) (b ∷ bs)))
      × ((probe_from s stack (b ∷ bs)).alive ≡ admits_from s stack (b ∷ bs))
unfolding admits_from probe_from run advance
Replays-step bs ih s stack b (next t) e = ground (arith, ih t stack)
Replays-step bs ih s stack b (push f t) e = ground (arith, ih t (f ∷ stack))
Replays-step bs ih s stack b (pop t) e = ground (arith, ih t (popped stack))
Replays-step bs ih s stack b dead e = ground arith

replays : (bs : List ℕ) → Replays bs
unfolding admits_from probe_from run
replays [] s stack = (refl, refl)
replays (b ∷ bs) s stack = Replays-step bs (replays bs) s stack b (step s (last stack) b) refl

-- `admits` tells whether the live automaton would take all the bytes, and a probe is alive exactly
-- if `admits` holds.
pub admits-run :
    (p : Pda) (bytes : List ℕ)
    → (admits p bytes ≡ is_ok (run p bytes)) × ((probe p bytes).alive ≡ admits p bytes)
unfolding admits probe
admits-run p bytes = replays bytes p.state p.stack
