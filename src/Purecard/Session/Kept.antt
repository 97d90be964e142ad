-- ===== src/Purecard/Session/Kept.antt =====
-- Every operation of a session keeps what the mask rests on.
use pure_analyzer.Purecard.Vocab.{len}
use pure_analyzer.Shared.{
  ℕ, ◌<◌, Option, none, some, List, [], ◌∷◌, ◌≡◌, refl, sym, ap, ◌∙◌, Option-cases, inl, inr,
}
use mathlib.Core.Path.{subst}
use pure_analyzer.Shared.Every.{All}
use pure_analyzer.Purecard.Mask.{with_len}
use pure_analyzer.Purecard.Mask.Bits.{IsMask, with_len-IsMask}
use pure_analyzer.Purecard.Grammar.Pda
use pure_analyzer.Purecard.Grammar.Pda.{Pda}
use pure_analyzer.Purecard.Automaton
use pure_analyzer.Purecard.Automaton.{CompiledAutomaton, RtnPda, Step}
use pure_analyzer.Purecard.Automaton.Ambient.{IsDeclared, PushesDeclared}
use pure_analyzer.Purecard.Compiled.{
  Engine, CompiledGrammar, u32_bound, eos_bit, mask_len, cached, cached_spec,
}
use pure_analyzer.Purecard.Compiled.Cache.{IsCached}
use pure_analyzer.Purecard.Session.{
  Cursor, fixed, spec, new_cursor, cursor_cached, cursor_is_accepting, run_spec, accepted_spec,
  accepted_fixed, try_accept_token, DecoderSession, new, allowed_mask,
}
use pure_analyzer.Purecard.Session.Masks.{with_eos-IsMask, with_eos-len}
use pure_analyzer.Purecard.Session.Verdicts.{Drives, IsSession}
use pure_analyzer.Purecard.Session.Sound.{
  cursor_cached-IsCached, drafted, drafted-IsMask, drafted-len, allowed_mask-drafted,
}

pub new_cursor-Drives : (e : Engine) → Drives e (new_cursor e)
new_cursor-Drives Engine.fixed = tt
new_cursor-Drives (Engine.spec a) = (refl, λ pushes. tt)

pub new-IsSession :
    (g : CompiledGrammar) → IsCached g → len g.vocab < u32_bound → IsSession g (new g)
unfolding new with_len
new-IsSession g m l = record {
  whole = with_len-IsMask (mask_len g.vocab);
  sized = refl;
  memo = m;
  counted = l;
  drives = new_cursor-Drives g.engine;
}

pub same_grammar :
    (g : CompiledGrammar) (c : Cursor)
    → ((cursor_cached g c).1.engine ≡ g.engine) × ((cursor_cached g c).1.vocab ≡ g.vocab)
unfolding cached cached_spec
same_grammar g (fixed p) = (refl, refl)
same_grammar g (spec a p) = (refl, refl)

pub allowed_mask-cursor :
    (g : CompiledGrammar) (s : DecoderSession)
    → ((allowed_mask g s).0.cursor ≡ s.cursor)
      × ((allowed_mask g s).1 ≡ (cursor_cached g s.cursor).1)
unfolding allowed_mask
allowed_mask-cursor g s = (refl, refl)

pub allowed_mask-IsSession :
    (g : CompiledGrammar) (s : DecoderSession)
    → IsSession g s
    → IsSession (allowed_mask g s).1 (allowed_mask g s).0
allowed_mask-IsSession g s v =
    let eq = allowed_mask-drafted g s v in
    let accepting = cursor_is_accepting s.cursor in
    let (c, h) = allowed_mask-cursor g s in
    let (e, w) = same_grammar g s.cursor in
    record {
      whole =
          subst IsMask (sym eq)
            (with_eos-IsMask accepting (eos_bit g.vocab) (drafted g s) (drafted-IsMask g s));
      sized =
          ap (λ m. m.len) eq
          ∙ with_eos-len accepting (eos_bit g.vocab) (drafted g s)
          ∙ drafted-len g s
          ∙ ap mask_len (sym w ∙ ap (λ x. x.vocab) (sym h));
      memo = subst IsCached (sym h) (cursor_cached-IsCached g s.cursor v.drives v.memo).1;
      counted = subst (λ x. len x < u32_bound) (sym w ∙ ap (λ x. x.vocab) (sym h)) v.counted;
      drives =
          subst (λ x. Drives x.engine (allowed_mask g s).0.cursor) (sym h)
            (subst (λ x. Drives (cursor_cached g s.cursor).1.engine x) (sym c)
              (subst (λ x. Drives x s.cursor) (sym e) v.drives));
    }

-- What a byte may do to the cursor.
popped-All : (P : ℕ → Type 0) (fs : List ℕ) → All P fs → All P (Automaton.popped fs)
popped-All P [] h = tt
popped-All P (f ∷ fs) h = h.1

pub advance-IsDeclared :
    (a : CompiledAutomaton) (p q : RtnPda) (b : ℕ)
    → PushesDeclared a
    → All (IsDeclared a) p.stack
    → Automaton.advance a p b ≡ some q
    → All (IsDeclared a) q.stack
unfolding Automaton.advance
advance-IsDeclared a p q b pushes d h =
    by_step (Automaton.step a p.state (Automaton.last p.stack) b) refl h
  where
    stuck : none ≡ some q → ⊥
    stuck k = cc

    by_step :
        (r : Step)
        → Automaton.step a p.state (Automaton.last p.stack) b ≡ r
        → Automaton.apply p r ≡ some q
        → All (IsDeclared a) q.stack
    by_step (Step.next t) e k = let eq : p.stack ≡ q.stack = cc in subst (All (IsDeclared a)) eq d
    by_step (Step.push f t) e k =
        let eq : f ∷ p.stack ≡ q.stack = cc in
        subst (All (IsDeclared a)) eq (pushes p.state b f t (Automaton.last p.stack) e, d)
    by_step (Step.pop t) e k =
        let eq : Automaton.popped p.stack ≡ q.stack = cc in
        subst (All (IsDeclared a)) eq (popped-All (IsDeclared a) p.stack d)
    by_step Step.dead e k = absurd (stuck k)

run_spec-IsDeclared :
    (a : CompiledAutomaton) (bs : List ℕ) (p q : RtnPda)
    → PushesDeclared a
    → All (IsDeclared a) p.stack
    → run_spec a p bs ≡ some q
    → All (IsDeclared a) q.stack
unfolding run_spec
run_spec-IsDeclared a [] p q pushes d h =
    let eq : p.stack ≡ q.stack = cc in subst (All (IsDeclared a)) eq d
run_spec-IsDeclared a (b ∷ bs) p q pushes d h = elim (Option-cases (Automaton.advance a p b)) [
  | inl n ↦ absurd (stuck (rw n at h))
  | inr (m, e) ↦
      run_spec-IsDeclared a bs m q pushes (advance-IsDeclared a p m b pushes d e) (rw e at h)
]
  where
    stuck : none ≡ some q → ⊥
    stuck k = cc

pub try_accept_token-Drives :
    (e : Engine) (c d : Cursor) (t : List ℕ)
    → Drives e c
    → try_accept_token c t ≡ some d
    → Drives e d
unfolding try_accept_token
try_accept_token-Drives Engine.fixed (fixed p) d t v h = by_result (Pda.run p t) h
  where
    by_result : (r : Pda.Result Pda) → accepted_fixed r ≡ some d → Drives Engine.fixed d
    by_result (Pda.Result.ok q) k = let eq : fixed q ≡ d = cc in subst (Drives Engine.fixed) eq tt
    by_result (Pda.Result.err w) k = absurd (stuck k)
      where
        stuck : none ≡ some d → ⊥
        stuck k = cc
try_accept_token-Drives (Engine.spec a) (spec b p) d t (same, declared) h =
    by_result (run_spec b p t) refl h
  where
    stuck : none ≡ some d → ⊥
    stuck k = cc

    by_result :
        (r : Option RtnPda)
        → run_spec b p t ≡ r
        → accepted_spec b r ≡ some d
        → Drives (Engine.spec a) d
    by_result none q k = absurd (stuck k)
    by_result (some m) q k =
        let eq : spec b m ≡ d = cc in
        subst (Drives (Engine.spec a)) eq
          (same, λ pushes. run_spec-IsDeclared b t p m pushes (declared pushes) q)
try_accept_token-Drives Engine.fixed (spec b p) d t v h = absurd v
try_accept_token-Drives (Engine.spec a) (fixed p) d t v h = absurd v
