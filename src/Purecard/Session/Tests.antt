-- ===== src/Purecard/Session/Tests.antt =====
-- Sessions over small vocabularies.
use pure_analyzer.Shared.{◌<◌, arith, [], ◌∷◌, ◌≡◌, refl}
use pure_analyzer.Purecard.Spec.{matches}
use pure_analyzer.Purecard.Mask.{test}
use pure_analyzer.Purecard.Vocab.{Vocab, len}
use pure_analyzer.Purecard.Automaton
use pure_analyzer.Purecard.Automaton.Tests.{
  parens_automaton, parens, parens_compiled, parens-IsStackBlind, statement_automaton,
}
use pure_analyzer.Purecard.Compiled.{CompiledGrammar, u32_bound, compile, from_automaton}
use pure_analyzer.Purecard.Session
use pure_analyzer.Purecard.Session.{
  DecoderSession, new, allowed_mask, Accepted, ok, accept_token, accept_byte,
}
use pure_analyzer.Purecard.Session.Sound.{is_accepted}
use pure_analyzer.Purecard.Session.Reach.{idle, opened, masked, took_byte}
use pure_analyzer.Purecard.Session.Offered.{running}
use pure_analyzer.Purecard.Session.Hosted.{compile-allowed_mask, from_automaton-allowed_mask}

-- `(`, `()`, `)` and `))`.
abbrev vocab : Vocab
vocab = record { tokens = (40 ∷ []) ∷ (40 ∷ 41 ∷ []) ∷ (41 ∷ []) ∷ (41 ∷ 41 ∷ []) ∷ [] }

abbrev supplied : CompiledGrammar
supplied = from_automaton parens_automaton vocab

four_tokens : (v : Vocab) → len v ≡ 4 → len v < u32_bound
four_tokens v h = omega (arith, h)

abbrev opened_parens : DecoderSession
opened_parens = record (new supplied) {
  cursor = Session.Cursor.spec parens_automaton (record { state = 0; stack = 0 ∷ [] });
  offset = 1;
}

opens : accept_byte (new supplied) 40 ≡ ok opened_parens
unfolding accept_byte new from_automaton Automaton.advance Automaton.step matches
opens = refl

-- Under one frame the closing token is offered, as the session takes it.
from_automaton-allowed_mask_example :
    test (allowed_mask supplied opened_parens).0.mask 2
    ≡ is_accepted (accept_token supplied opened_parens 2)
from_automaton-allowed_mask_example =
    from_automaton-allowed_mask parens parens_automaton vocab supplied opened_parens 2
      parens_compiled parens-IsStackBlind (four_tokens vocab refl)
      (
        opened_parens ∷ [],
        0,
        took_byte 0 40 (new supplied) opened_parens (opened idle) refl opens,
        refl,
      )

abbrev filled : CompiledGrammar
filled = (allowed_mask (compile vocab) (new (compile vocab))).1

-- The second session of a grammar, after the first has filled a cell.
compile-allowed_mask_example :
    test (allowed_mask filled (new (compile vocab))).0.mask 1
    ≡ is_accepted (accept_token filled (new (compile vocab)) 1)
compile-allowed_mask_example =
    compile-allowed_mask vocab filled (new (compile vocab)) 1 (four_tokens vocab refl) (
      (allowed_mask (compile vocab) (new (compile vocab))).0 ∷ new (compile vocab) ∷ [],
      1,
      masked 0 (new (compile vocab)) (opened (opened idle)) refl,
      refl,
    )

-- `;`, which the table for statements takes over the empty stack only.
abbrev semicolon : Vocab
semicolon = record { tokens = (59 ∷ []) ∷ [] }

abbrev statements : CompiledGrammar
statements = from_automaton statement_automaton semicolon

abbrev opened_statement : DecoderSession
opened_statement =
    running statement_automaton (record { state = 0; stack = 0 ∷ [] }) 1 (new statements).mask
