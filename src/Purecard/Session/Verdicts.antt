-- ===== src/Purecard/Session/Verdicts.antt =====
-- What the base probes, which the cache is built from, say of a live session.
use mathlib.Core.Path.{subst}
use pure_analyzer.Shared.{ℕ, ◌<◌, true, false, ◌&&◌, List, [], ◌∷◌, ◌≡◌, refl, arith}
use pure_analyzer.Shared.Every.{All}
use pure_analyzer.Purecard.Mask.Bits.{IsMask}
use pure_analyzer.Purecard.Vocab.{Vocab, len}
use pure_analyzer.Purecard.Grammar.State.{Step as PdaStep}
use pure_analyzer.Purecard.Grammar.State.{State, Frame, next, push, pop, dead}
use pure_analyzer.Purecard.Grammar.Dispatch
use pure_analyzer.Purecard.Grammar.Pda
use pure_analyzer.Purecard.Grammar.Pda.{Pda, Probe}
use pure_analyzer.Purecard.Grammar.Partition.{probe-admits-over}
use pure_analyzer.Purecard.Grammar.Replay.{admits-run}
use pure_analyzer.Purecard.Automaton
use pure_analyzer.Purecard.Automaton.{CompiledAutomaton, RtnPda, Step}
use pure_analyzer.Purecard.Automaton.Ambient.{
  IsStackBlind, IsDeclared, PushesDeclared, probe-rtn-over, probe-rtn-alone,
}
use pure_analyzer.Purecard.Compiled.{Engine, CompiledGrammar, u32_bound, mask_len, token, as_probe}
use pure_analyzer.Purecard.Compiled.Cache.{IsCached}
use pure_analyzer.Purecard.Session.{Cursor, fixed, spec, non_empty, DecoderSession}
use pure_analyzer.Purecard.Session.Masks.{Speaks}

-- What a mask asks of a grammar: a supplied automaton is blind to the stack and pushes declared frames.
abbrev pub Runs : Engine → Type 0
Runs Engine.fixed = Unit
Runs (Engine.spec a) = IsStackBlind a × PushesDeclared a

-- The cursor runs on the grammar's automaton; its stack holds declared frames if only such are pushed.
abbrev pub Drives : Engine → Cursor → Type 0
Drives Engine.fixed (fixed p) = Unit
Drives (Engine.spec a) (spec b p) = (a ≡ b) × (PushesDeclared b → All (IsDeclared b) p.stack)
Drives Engine.fixed (spec b p) = ⊥
Drives (Engine.spec a) (fixed p) = ⊥

-- The session's mask has the grammar's length, and the grammar's cells are right.
pub record IsSession (g : CompiledGrammar) (s : DecoderSession) : Type 0 where
  pub whole : IsMask s.mask
  pub sized : s.mask.len ≡ mask_len g.vocab
  pub memo : IsCached g
  pub counted : len g.vocab < u32_bound
  pub drives : Drives g.engine s.cursor

consulted_step :
    (b : ℕ) (bs : List ℕ)
    → ((t : State) (fs : List Frame)
        → ((Pda.probe_from t fs bs).consulted_ambient && (Pda.probe_from t fs bs).alive) ≡ false)
    → (s : State) (stack : List Frame) (r : PdaStep) → Dispatch.step s (Pda.last stack) b ≡ r
    → ((Pda.probe_from s stack (b ∷ bs)).consulted_ambient
        && (Pda.probe_from s stack (b ∷ bs)).alive)
      ≡ false
unfolding Pda.probe_from
consulted_step b bs ih s stack (next t) e = ground (arith, ih t stack)
consulted_step b bs ih s stack (push f t) e = ground (arith, ih t (f ∷ stack))
consulted_step b bs ih s stack (pop t) e = ground (arith, ih t (Pda.popped stack))
consulted_step b bs ih s stack dead e = ground arith

-- A probe that asks for the ambient stack has died.
consulted_dies :
    (bs : List ℕ) (s : State) (stack : List Frame)
    → ((Pda.probe_from s stack bs).consulted_ambient && (Pda.probe_from s stack bs).alive) ≡ false
unfolding Pda.probe_from
consulted_dies [] s stack = refl
consulted_dies (b ∷ bs) s stack =
    consulted_step b bs (λ t fs. consulted_dies bs t fs) s stack
      (Dispatch.step s (Pda.last stack) b) refl

-- What the base probe of the cursor's state says of each token.
unfoldable pub verdict_of : Cursor → Vocab → ℕ → Probe
verdict_of (fixed p) v id = Pda.probe (Pda.at p.state) (token v id)
verdict_of (spec a p) v id = as_probe (Automaton.probe a (Automaton.at p.state) (token v id))

idle_fixed :
    (s : State) (stack : List Frame) (t : List ℕ)
    → non_empty stack ≡ false
    → (Pda.probe (Pda.at s) t).consulted_ambient ≡ true
    → Pda.admits (record { state = s; stack = stack }) t ≡ false
unfolding Pda.probe
idle_fixed s [] t e h = ground (arith, admits-run (Pda.at s) t, consulted_dies t s [])
idle_fixed s (f ∷ fs) t e h = cc

idle_rtn :
    (a : CompiledAutomaton) (s : ℕ) (stack t : List ℕ)
    → non_empty stack ≡ false
    → (Automaton.probe a (Automaton.at s) t).consulted_ambient ≡ true
    → Automaton.admits a (record { state = s; stack = stack }) t ≡ false
idle_rtn a s [] t e h = ground (arith, probe-rtn-alone a (Automaton.at s) t)
idle_rtn a s (f ∷ fs) t e h = cc

pub speaks :
    (e : Engine) (c : Cursor) (v : Vocab) → Runs e → Drives e c → Speaks c v (verdict_of c v)
unfolding verdict_of
speaks Engine.fixed (fixed p) v r d = record {
  independent = λ id h. probe-admits-over (Pda.at p.state) p.stack (token v id) h;
  idle = λ id e h. idle_fixed p.state p.stack (token v id) e h;
}
speaks (Engine.spec a) (spec b p) v r (same, declared) =
    let (blind, pushes) = subst (λ x. IsStackBlind x × PushesDeclared x) same r in
    record {
      independent = λ id h.
          probe-rtn-over b (Automaton.at p.state) p.stack (token v id) blind (declared pushes) h;
      idle = λ id e h. idle_rtn b p.state p.stack (token v id) e h;
    }
speaks Engine.fixed (spec b p) v r d = absurd d
speaks (Engine.spec a) (fixed p) v r d = absurd d
