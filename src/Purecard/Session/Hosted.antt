-- ===== src/Purecard/Session/Hosted.antt =====
-- The sessions of the two kinds of grammar that a host can build.
use mathlib.Core.Path.{subst}
use pure_analyzer.Shared.{ℕ, ◌<◌, ◌≡◌}
use pure_analyzer.Purecard.Mask.{test}
use pure_analyzer.Purecard.Vocab.{Vocab, len}
use pure_analyzer.Purecard.Spec.{GrammarSpecV1}
use pure_analyzer.Purecard.Automaton.{CompiledAutomaton}
use pure_analyzer.Purecard.Automaton.Lower.{ok}
use pure_analyzer.Purecard.Automaton.Compile.{compile_v1}
use pure_analyzer.Purecard.Automaton.Range.{StepIsClosed, compile_v1-closed}
use pure_analyzer.Purecard.Automaton.Ambient.{IsStackBlind, PushesDeclared}
use pure_analyzer.Purecard.Compiled.{CompiledGrammar, u32_bound, compile, from_automaton}
use pure_analyzer.Purecard.Compiled.Cache.{compile-IsCached, from_automaton-IsCached}
use pure_analyzer.Purecard.Session.{DecoderSession, allowed_mask, accept_token}
use pure_analyzer.Purecard.Session.Sound.{is_accepted}
use pure_analyzer.Purecard.Session.Reach.{Reach, Reach-allowed_mask}

-- Of any sessions with no schema that `DecoderSession::new` opens on one grammar of the hand-written
-- automaton, after any calls on any of them: the mask of the next step holds an id exactly if
-- `accept_token` takes it, EOS and unknown ids included. The vocabulary has fewer than 2^32 tokens.
pub compile-allowed_mask :
    (v : Vocab) (h : CompiledGrammar) (s : DecoderSession) (id : ℕ)
    → len v < u32_bound
    → Reach (compile v) h s
    → test (allowed_mask h s).0.mask id ≡ is_accepted (accept_token h s id)
unfolding compile
compile-allowed_mask v h s id l r =
    Reach-allowed_mask (compile v) h s id tt (compile-IsCached v) l r

compile_v1-PushesDeclared :
    (spec : GrammarSpecV1) (a : CompiledAutomaton) → compile_v1 spec ≡ ok a → PushesDeclared a
compile_v1-PushesDeclared spec a c s b f t top e =
    (subst (StepIsClosed _ a.frame_count top) e (compile_v1-closed spec a s top b c)).0

-- Of any sessions that `DecoderSession::new` opens on one supplied grammar that `compile_v1`
-- accepts and whose automaton takes each byte of the empty stack in the same way under every
-- declared frame, after any calls on any of them: the mask of the next step holds an id exactly if
-- `accept_token` takes it. The vocabulary has fewer than 2^32 tokens.
pub from_automaton-allowed_mask :
    (spec : GrammarSpecV1) (a : CompiledAutomaton) (v : Vocab) (h : CompiledGrammar)
    (s : DecoderSession) (id : ℕ)
    → compile_v1 spec ≡ ok a
    → IsStackBlind a
    → len v < u32_bound
    → Reach (from_automaton a v) h s
    → test (allowed_mask h s).0.mask id ≡ is_accepted (accept_token h s id)
unfolding from_automaton
from_automaton-allowed_mask spec a v h s id c blind l r =
    Reach-allowed_mask (from_automaton a v) h s id (blind, compile_v1-PushesDeclared spec a c)
      (from_automaton-IsCached a v) l r
