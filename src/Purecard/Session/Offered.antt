-- ===== src/Purecard/Session/Offered.antt =====
-- A token that a supplied grammar offers and refuses.
use pure_analyzer.Shared.{ℕ}
use pure_analyzer.Purecard.Mask.{BitMask}
use pure_analyzer.Purecard.Vocab.{Vocab}
use pure_analyzer.Purecard.Automaton
use pure_analyzer.Purecard.Automaton.{CompiledAutomaton, RtnPda}
use pure_analyzer.Purecard.Session.{spec, DecoderSession}
use pure_analyzer.Purecard.Session.Reach.{Reach}

-- A session over a supplied automaton.
abbrev pub running : CompiledAutomaton → RtnPda → ℕ → BitMask → DecoderSession
running a p offset mask = record { cursor = spec a p; offset = offset; mask = mask }
