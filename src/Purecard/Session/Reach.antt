-- ===== src/Purecard/Session/Reach.antt =====
-- Every session that a host can bring about, whatever it calls, on which of its sessions and in which
-- order.
use pure_analyzer.Shared.{
  ℕ, zero, suc, ◌<◌, some, List, [], ◌∷◌, ◌≡◌, refl, sym, ap, ◌∙◌, get_elem?,
}
use mathlib.Core.Path.{subst}
use pure_analyzer.Shared.Cells.{modify, modify-All}
use pure_analyzer.Shared.Every.{All, All-map}
use pure_analyzer.Purecard.Mask.{test}
use pure_analyzer.Purecard.Vocab.{len}
use pure_analyzer.Purecard.Compiled.{CompiledGrammar, u32_bound, mask_len}
use pure_analyzer.Purecard.Compiled.Cache.{IsCached}
use pure_analyzer.Purecard.Session.{
  cursor_cached, DecoderSession, new, allowed_mask, ok, accept_token, reset, accept_byte,
}
use pure_analyzer.Purecard.Session.Verdicts.{Runs, Drives, IsSession}
use pure_analyzer.Purecard.Session.Sound.{is_accepted, allowed_mask-accept_token}
use pure_analyzer.Purecard.Session.Kept.{
  same_grammar, allowed_mask-cursor, new-IsSession, allowed_mask-IsSession,
}
use pure_analyzer.Purecard.Session.Calls.{
  accept_token-IsSession, accept_byte-IsSession, reset-IsSession,
}

abbrev pub put_at : List DecoderSession → ℕ → DecoderSession → List DecoderSession
put_at ss i t = modify ss i (λ _. t)

-- The sessions that a host has on one grammar, which they share, and the calls that it makes on any of
-- them. A call that returns an error leaves its session as it was.
pub data Hosts (g : CompiledGrammar) : CompiledGrammar → List DecoderSession → Type 0 where
  idle : Hosts g g []
  opened : {h : CompiledGrammar} {ss : List DecoderSession} → Hosts g h ss → Hosts g h (new h ∷ ss)
  cloned :
      {h : CompiledGrammar} {ss : List DecoderSession} (i : ℕ) (s : DecoderSession)
      → Hosts g h ss
      → get_elem? ss i ≡ some s
      → Hosts g h (s ∷ ss)
  masked :
      {h : CompiledGrammar} {ss : List DecoderSession} (i : ℕ) (s : DecoderSession)
      → Hosts g h ss
      → get_elem? ss i ≡ some s
      → Hosts g (allowed_mask h s).1 (put_at ss i (allowed_mask h s).0)
  took_token :
      {h : CompiledGrammar} {ss : List DecoderSession} (i id : ℕ) (s t : DecoderSession)
      → Hosts g h ss
      → get_elem? ss i ≡ some s
      → accept_token h s id ≡ ok t
      → Hosts g h (put_at ss i t)
  took_byte :
      {h : CompiledGrammar} {ss : List DecoderSession} (i b : ℕ) (s t : DecoderSession)
      → Hosts g h ss
      → get_elem? ss i ≡ some s
      → accept_byte s b ≡ ok t
      → Hosts g h (put_at ss i t)
  restarted :
      {h : CompiledGrammar} {ss : List DecoderSession} (i : ℕ) (s : DecoderSession)
      → Hosts g h ss
      → get_elem? ss i ≡ some s
      → Hosts g h (put_at ss i (reset s))

-- The grammar and one of its sessions, after any calls on all of them.
abbrev pub Reach : CompiledGrammar → CompiledGrammar → DecoderSession → Type 0
Reach g h s = (ss : List DecoderSession) × (i : ℕ) × Hosts g h ss × (get_elem? ss i ≡ some s)

-- What all sessions of a grammar rest on.
record IsHost (h : CompiledGrammar) (ss : List DecoderSession) : Type 0 where
  memo : IsCached h
  counted : len h.vocab < u32_bound
  sessions : All (IsSession h) ss

chosen :
    (h : CompiledGrammar) (ss : List DecoderSession) (i : ℕ) (s : DecoderSession)
    → All (IsSession h) ss
    → get_elem? ss i ≡ some s
    → IsSession h s
chosen h [] i s v e = absurd (cc)
chosen h (t ∷ ss) zero s v e = let same : t ≡ s = cc in subst (IsSession h) same v.0
chosen h (t ∷ ss) (suc i) s v e = chosen h ss i s v.1 e

IsHost-put_at :
    (h : CompiledGrammar) (ss : List DecoderSession) (i : ℕ) (t : DecoderSession)
    → IsHost h ss
    → IsSession h t
    → IsHost h (put_at ss i t)
IsHost-put_at h ss i t v w = record {
  memo = v.memo;
  counted = v.counted;
  sessions = modify-All (IsSession h) ss i (λ _. t) (λ s x. w) v.sessions;
}

-- A mask of one session fills a cell, which the others keep to.
refilled :
    (h k : CompiledGrammar)
    → k.engine ≡ h.engine
    → k.vocab ≡ h.vocab
    → IsCached k
    → (s : DecoderSession) → IsSession h s
    → IsSession k s
refilled h k e w m s v = record {
  whole = v.whole;
  sized = v.sized ∙ ap mask_len (sym w);
  memo = m;
  counted = subst (λ x. len x < u32_bound) (sym w) v.counted;
  drives = subst (λ x. Drives x s.cursor) (sym e) v.drives;
}

IsHost-masked :
    (h : CompiledGrammar) (ss : List DecoderSession) (i : ℕ) (s : DecoderSession)
    → IsHost h ss
    → get_elem? ss i ≡ some s
    → IsHost (allowed_mask h s).1 (put_at ss i (allowed_mask h s).0)
IsHost-masked h ss i s v e =
    let own = allowed_mask-IsSession h s (chosen h ss i s v.sessions e) in
    let after : (allowed_mask h s).1 ≡ (cursor_cached h s.cursor).1 = (allowed_mask-cursor h s).1 in
    let (engine, vocab) = same_grammar h s.cursor in
    let same_engine : (allowed_mask h s).1.engine ≡ h.engine = ap (λ x. x.engine) after ∙ engine in
    let same_vocab : (allowed_mask h s).1.vocab ≡ h.vocab = ap (λ x. x.vocab) after ∙ vocab in
    IsHost-put_at (allowed_mask h s).1 ss i (allowed_mask h s).0
      (record {
        memo = own.memo;
        counted = own.counted;
        sessions =
            All-map (refilled h (allowed_mask h s).1 same_engine same_vocab own.memo) ss v.sessions;
      })
      own

Hosts-IsHost :
    {g h : CompiledGrammar} {ss : List DecoderSession}
    → IsCached g
    → len g.vocab < u32_bound
    → Hosts g h ss
    → IsHost h ss
Hosts-IsHost m l idle = record { memo = m; counted = l; sessions = tt }
Hosts-IsHost m l (opened {h} {ss} q) =
    let v = Hosts-IsHost m l q in
    record {
      memo = v.memo;
      counted = v.counted;
      sessions = (new-IsSession h v.memo v.counted, v.sessions);
    }
Hosts-IsHost m l (cloned {h} {ss} i s q e) =
    let v = Hosts-IsHost m l q in
    record {
      memo = v.memo;
      counted = v.counted;
      sessions = (chosen h ss i s v.sessions e, v.sessions);
    }
Hosts-IsHost m l (masked {h} {ss} i s q e) = IsHost-masked h ss i s (Hosts-IsHost m l q) e
Hosts-IsHost m l (took_token {h} {ss} i id s t q e k) =
    let v = Hosts-IsHost m l q in
    IsHost-put_at h ss i t v (accept_token-IsSession h s t id (chosen h ss i s v.sessions e) k)
Hosts-IsHost m l (took_byte {h} {ss} i b s t q e k) =
    let v = Hosts-IsHost m l q in
    IsHost-put_at h ss i t v (accept_byte-IsSession h s t b (chosen h ss i s v.sessions e) k)
Hosts-IsHost m l (restarted {h} {ss} i s q e) =
    let v = Hosts-IsHost m l q in
    IsHost-put_at h ss i (reset s) v (reset-IsSession h s (chosen h ss i s v.sessions e))

-- The grammar stays on its engine and vocabulary.
Hosts-same :
    {g h : CompiledGrammar} {ss : List DecoderSession}
    → Hosts g h ss
    → (h.engine ≡ g.engine) × (h.vocab ≡ g.vocab)
Hosts-same idle = (refl, refl)
Hosts-same (opened q) = Hosts-same q
Hosts-same (cloned i s q e) = Hosts-same q
Hosts-same (masked {h} i s q e) =
    let (engine, vocab) = same_grammar h s.cursor in
    let after = (allowed_mask-cursor h s).1 in
    let (first, words) = Hosts-same q in
    (ap (λ x. x.engine) after ∙ engine ∙ first, ap (λ x. x.vocab) after ∙ vocab ∙ words)
Hosts-same (took_token i id s t q e k) = Hosts-same q
Hosts-same (took_byte i b s t q e k) = Hosts-same q
Hosts-same (restarted i s q e) = Hosts-same q

pub Reach-IsSession :
    {g h : CompiledGrammar} {s : DecoderSession}
    → IsCached g
    → len g.vocab < u32_bound
    → Reach g h s
    → IsSession h s
Reach-IsSession {g} {h} {s} m l (ss, i, q, e) = chosen h ss i s (Hosts-IsHost m l q).sessions e

pub Reach-same :
    {g h : CompiledGrammar} {s : DecoderSession}
    → Reach g h s
    → (h.engine ≡ g.engine) × (h.vocab ≡ g.vocab)
Reach-same (ss, i, q, e) = Hosts-same q

pub Reach-allowed_mask :
    (g h : CompiledGrammar) (s : DecoderSession) (id : ℕ)
    → Runs g.engine
    → IsCached g
    → len g.vocab < u32_bound
    → Reach g h s
    → test (allowed_mask h s).0.mask id ≡ is_accepted (accept_token h s id)
Reach-allowed_mask g h s id r m l q =
    allowed_mask-accept_token h s id (subst Runs (sym (Reach-same q).0) r) (Reach-IsSession m l q)
