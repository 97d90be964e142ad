-- ===== src/Purecard/Session/Sound.antt =====
-- The mask of a session holds exactly the ids that `accept_token` takes.
use pure_analyzer.Shared.{
  ℕ, zero, suc, ◌≤◌, ◌<◌, Bool, true, false, Option, none, some, List, [], ◌∷◌, ◌≡◌, refl, sym, ap,
  ◌∙◌, arith, ◌==◌, ltb, Bool-cases, inl, inr, length, get_elem?,
}
use pure_analyzer.Purecard.Mask.{BitMask, test, copy_from}
use pure_analyzer.Purecard.Mask.Bits.{IsMask, copy_from-eq}
use pure_analyzer.Purecard.Vocab.{Vocab, bytes, len}
use pure_analyzer.Purecard.Grammar.Replay.{admits-run}
use pure_analyzer.Purecard.Automaton
use pure_analyzer.Purecard.Automaton.{CompiledAutomaton, RtnPda, Step}
use pure_analyzer.Purecard.Compiled.{
  Engine, unwrap_or_nil, CompiledGrammar, u32_bound, count, eos_bit, mask_len, token, build_fixed,
  build_spec,
}
use pure_analyzer.Purecard.Compiled.Cache.{IsCached, cached-IsCached, cached_spec-IsCached}
use pure_analyzer.Purecard.Session.{
  Cursor, fixed, spec, cursor_cached, cursor_admits, cursor_is_accepting, reprobed, with_eos,
  run_spec, try_accept_token, DecoderSession, allowed_mask, Accepted, ok, err, accept_token,
}
use pure_analyzer.Purecard.Session.Verdicts.{Runs, Drives, IsSession, verdict_of, speaks}
use pure_analyzer.Purecard.Session.Masks.{
  partitioned, partitioned-IsMask, partitioned-len, reprobed-test, reprobed-IsMask, reprobed-len,
  with_eos-test,
}

pub cursor_cached-IsCached :
    (g : CompiledGrammar) (c : Cursor)
    → Drives g.engine c
    → IsCached g
    → ((cursor_cached g c).0 ≡ partitioned g.vocab (verdict_of c g.vocab))
      × IsCached (cursor_cached g c).1
unfolding verdict_of build_fixed build_spec
cursor_cached-IsCached g c d m = by_engine g.engine c refl d
  where
    by_engine :
        (e : Engine) (c : Cursor)
        → g.engine ≡ e
        → Drives e c
        → ((cursor_cached g c).0 ≡ partitioned g.vocab (verdict_of c g.vocab))
          × IsCached (cursor_cached g c).1
    by_engine Engine.fixed (fixed p) q d = cached-IsCached g p.state q m
    by_engine (Engine.spec a) (spec b p) q d =
        cached_spec-IsCached g b p.state (q ∙ ap (λ x. Engine.spec x) d.0) m
    by_engine Engine.fixed (spec b p) q d = absurd d
    by_engine (Engine.spec a) (fixed p) q d = absurd d

-- The mask before the bit of EOS is written.
unfoldable pub drafted : CompiledGrammar → DecoderSession → BitMask
drafted g s =
    let p = partitioned g.vocab (verdict_of s.cursor g.vocab) in
    reprobed s.cursor g.vocab p.deferred p.indep

copied :
    (g : CompiledGrammar) (s : DecoderSession)
    → IsSession g s
    → copy_from s.mask (cursor_cached g s.cursor).0.indep
      ≡ (partitioned g.vocab (verdict_of s.cursor g.vocab)).indep
copied g s v =
    let verdict = verdict_of s.cursor g.vocab in
    let is = (cursor_cached-IsCached g s.cursor v.drives v.memo).0 in
    rw is (
      copy_from-eq s.mask (partitioned g.vocab verdict).indep v.whole
        (partitioned-IsMask g.vocab verdict) (v.sized ∙ sym (partitioned-len g.vocab verdict)))

pub allowed_mask-drafted :
    (g : CompiledGrammar) (s : DecoderSession)
    → IsSession g s
    → (allowed_mask g s).0.mask
      ≡ with_eos (cursor_is_accepting s.cursor) (eos_bit g.vocab) (drafted g s)
unfolding allowed_mask drafted
allowed_mask-drafted g s v =
    let is = (cursor_cached-IsCached g s.cursor v.drives v.memo).0 in rw (copied g s v) (rw is refl)

pub count-len : (v : Vocab) → len v < u32_bound → count v ≡ len v
unfolding count
count-len v h = omega arith

pub count-le : (v : Vocab) → count v ≤ len v
unfolding count
count-le v = omega arith

unfoldable pub is_some : {A : Type 0} → Option A → Bool
is_some none = false
is_some (some a) = true

abbrev pub is_accepted : Accepted → Bool
is_accepted (ok s) = true
is_accepted (err e) = false

pub run_spec-admits :
    (a : CompiledAutomaton) (bs : List ℕ) (p : RtnPda)
    → is_some (run_spec a p bs) ≡ Automaton.admits a p bs
unfolding run_spec is_some Automaton.admits Automaton.advance
run_spec-admits a [] p = refl
run_spec-admits a (b ∷ bs) p =
    by_step (Automaton.step a p.state (Automaton.last p.stack) b) refl (run_spec-admits a bs)
  where
    by_step :
        (r : Step)
        → Automaton.step a p.state (Automaton.last p.stack) b ≡ r
        → ((q : RtnPda) → is_some (run_spec a q bs) ≡ Automaton.admits a q bs)
        → is_some (run_spec a p (b ∷ bs)) ≡ Automaton.admits a p (b ∷ bs)
    by_step (Step.next t) e ih = ground (arith, ih (record p { state = t }))
    by_step (Step.push f t) e ih = ground (arith, ih (record { state = t; stack = f ∷ p.stack }))
    by_step (Step.pop t) e ih =
        ground (arith, ih (record { state = t; stack = Automaton.popped p.stack }))
    by_step Step.dead e ih = ground arith

try_accept_token-admits :
    (c : Cursor) (t : List ℕ) → is_some (try_accept_token c t) ≡ cursor_admits c t
unfolding try_accept_token is_some
try_accept_token-admits (fixed p) t = ground (arith, admits-run p t)
try_accept_token-admits (spec a p) t = ground (arith, run_spec-admits a t p)

is_accepted-token :
    (g : CompiledGrammar) (s : DecoderSession) (id : ℕ) (t : List ℕ)
    → bytes g.vocab id ≡ some t
    → (id == eos_bit g.vocab) ≡ false
    → is_accepted (accept_token g s id) ≡ cursor_admits s.cursor t
unfolding accept_token is_some
is_accepted-token g s id t e k = ground (arith, try_accept_token-admits s.cursor t)

tokens_inside :
    (ts : List (List ℕ)) (id : ℕ)
    → id < length ts
    → get_elem? ts id ≡ some (unwrap_or_nil (get_elem? ts id))
tokens_inside [] id lt = absurd (omega arith)
tokens_inside (t ∷ ts) zero lt = refl
tokens_inside (t ∷ ts) (suc id) lt = tokens_inside ts id (omega arith)

tokens_outside : (ts : List (List ℕ)) (id : ℕ) → length ts ≤ id → get_elem? ts id ≡ none
tokens_outside [] id le = refl
tokens_outside (t ∷ ts) zero le = absurd (omega arith)
tokens_outside (t ∷ ts) (suc id) le = tokens_outside ts id (omega arith)

pub drafted-IsMask : (g : CompiledGrammar) (s : DecoderSession) → IsMask (drafted g s)
unfolding drafted
drafted-IsMask g s =
    let p = partitioned g.vocab (verdict_of s.cursor g.vocab) in
    reprobed-IsMask s.cursor g.vocab p.deferred p.indep
      (partitioned-IsMask g.vocab (verdict_of s.cursor g.vocab))

pub drafted-len : (g : CompiledGrammar) (s : DecoderSession) → (drafted g s).len ≡ mask_len g.vocab
unfolding drafted
drafted-len g s =
    let p = partitioned g.vocab (verdict_of s.cursor g.vocab) in
    reprobed-len s.cursor g.vocab p.deferred p.indep
    ∙ partitioned-len g.vocab (verdict_of s.cursor g.vocab)

drafted-test :
    (g : CompiledGrammar) (s : DecoderSession) (id : ℕ)
    → Runs g.engine
    → IsSession g s
    → id < count g.vocab
    → test (drafted g s) id ≡ is_accepted (accept_token g s id)
unfolding drafted
drafted-test g s id r v lt =
    reprobed-test s.cursor g.vocab (verdict_of s.cursor g.vocab) id
      (speaks g.engine s.cursor g.vocab r v.drives) lt
    ∙ sym (
        is_accepted-token g s id (token g.vocab id)
          (tokens_inside g.vocab.tokens id (omega (arith, lt, count-le g.vocab))) (ground arith))

is_accepted-eos :
    (g : CompiledGrammar) (s : DecoderSession) (id : ℕ)
    → (eos_bit g.vocab == id) ≡ true
    → is_accepted (accept_token g s id) ≡ cursor_is_accepting s.cursor
unfolding accept_token
is_accepted-eos g s id e = ground arith

is_accepted-unknown :
    (g : CompiledGrammar) (s : DecoderSession) (id : ℕ)
    → len g.vocab < id
    → is_accepted (accept_token g s id) ≡ false
unfolding accept_token
is_accepted-unknown g s id lt = ground (arith, tokens_outside g.vocab.tokens id, count-le g.vocab)

test_outside : (m : BitMask) (id : ℕ) → m.len ≤ id → test m id ≡ false
unfolding test
test_outside m id h = ground arith

pub allowed_mask-accept_token :
    (g : CompiledGrammar) (s : DecoderSession) (id : ℕ)
    → Runs g.engine
    → IsSession g s
    → test (allowed_mask g s).0.mask id ≡ is_accepted (accept_token g s id)
allowed_mask-accept_token g s id r v =
    ap (λ m. test m id) (allowed_mask-drafted g s v)
    ∙ with_eos-test (cursor_is_accepting s.cursor) (eos_bit g.vocab) id (drafted g s)
        (drafted-IsMask g s) (rw (drafted-len g s) (omega arith))
    ∙ elim (Bool-cases (eos_bit g.vocab == id)) [
      | inl e ↦ rw (e, is_accepted-eos g s id e) refl
      | inr e ↦ elim (Bool-cases (ltb id (count g.vocab))) [
        | inl inside ↦ rw (e, drafted-test g s id r v (ground arith)) refl
        | inr outside ↦
            let beyond : len g.vocab < id = ground (arith, count-len g.vocab v.counted) in
            rw (e, is_accepted-unknown g s id beyond)
              (test_outside (drafted g s) id
                (rw (drafted-len g s) (omega (arith, beyond, count-le g.vocab))))
      ]
    ]
