-- ===== src/Purecard/Session/Calls.antt =====
-- Every call on a session keeps what its masks rest on.
use pure_analyzer.Shared.{
  ℕ, ◌+◌, Option, none, some, List, ◌≡◌, refl, ◌==◌, Bool-cases, Option-cases, inl, inr, length,
}
use mathlib.Core.Path.{subst}
use pure_analyzer.Purecard.Vocab.{bytes}
use pure_analyzer.Purecard.Grammar.Pda
use pure_analyzer.Purecard.Automaton
use pure_analyzer.Purecard.Automaton.{CompiledAutomaton, RtnPda}
use pure_analyzer.Purecard.Compiled.{Engine, CompiledGrammar, eos_bit}
use pure_analyzer.Purecard.Session.{
  Cursor, fixed, spec, cursor_is_accepting, cursor_reset, Moved, moved, refused, advance_byte,
  try_accept_token, DecoderSession, DecodeError, unexpected_eos, unknown_token, inadmissible_token,
  dead_state, ok, err, accept_token, advanced, accept_eos, reset, accept_byte, moved_fixed,
  moved_spec, fed,
}
use pure_analyzer.Purecard.Session.Verdicts.{Drives, IsSession}
use pure_analyzer.Purecard.Session.Kept.{try_accept_token-Drives, advance-IsDeclared}

-- A session with its cursor and offset changed.
moved-IsSession :
    (g : CompiledGrammar) (s : DecoderSession) (c : Cursor) (n : ℕ)
    → IsSession g s
    → Drives g.engine c
    → IsSession g (record s { cursor = c; offset = n })
moved-IsSession g s c n v d = record {
  whole = v.whole;
  sized = v.sized;
  memo = v.memo;
  counted = v.counted;
  drives = d;
}

ok-injective : (s t : DecoderSession) → ok s ≡ ok t → s ≡ t
ok-injective s t h = cc

err-ne-ok : {A : Type 0} (e : DecodeError) (t : DecoderSession) → err e ≡ ok t → A
err-ne-ok e t h = absurd (stuck h)
  where
    stuck : err e ≡ ok t → ⊥
    stuck q = cc

pub accept_token-IsSession :
    (g : CompiledGrammar) (s t : DecoderSession) (id : ℕ)
    → IsSession g s
    → accept_token g s id ≡ ok t
    → IsSession g t
unfolding accept_token
accept_token-IsSession g s t id v h = elim (Bool-cases (id == eos_bit g.vocab)) [
  | inl e ↦ at_eos (rw e at h)
  | inr e ↦ elim (Option-cases (bytes g.vocab id)) [
    | inl n ↦ err-ne-ok (unknown_token id) t (rw (e, n) at h)
    | inr (b, k) ↦ by_token b (try_accept_token s.cursor b) refl (rw (e, k) at h)
  ]
]
  where
    at_eos : accept_eos s ≡ ok t → IsSession g t
    at_eos q = elim (Bool-cases (cursor_is_accepting s.cursor)) [
      | inl e ↦ subst (IsSession g) (ok-injective s t (rw e at q)) v
      | inr e ↦ err-ne-ok unexpected_eos t (rw e at q)
    ]

    by_token :
        (b : List ℕ) (o : Option Cursor)
        → try_accept_token s.cursor b ≡ o
        → advanced id b s o ≡ ok t
        → IsSession g t
    by_token b none e q = err-ne-ok (inadmissible_token id) t q
    by_token b (some c) e q = subst (IsSession g) (ok-injective _ t q) (
        moved-IsSession g s c (s.offset + length b) v
          (try_accept_token-Drives g.engine s.cursor c b v.drives e))

advance_byte-Drives :
    (e : Engine) (c d : Cursor) (b : ℕ) → Drives e c → advance_byte c b ≡ moved d → Drives e d
unfolding advance_byte
advance_byte-Drives Engine.fixed (fixed p) d b v h = by_result (Pda.advance p b) h
  where
    by_result : (r : Pda.Result Pda.Pda) → moved_fixed r ≡ moved d → Drives Engine.fixed d
    by_result (Pda.Result.ok q) k = let eq : fixed q ≡ d = cc in subst (Drives Engine.fixed) eq tt
    by_result (Pda.Result.err w) k = absurd (cc)
advance_byte-Drives (Engine.spec a) (spec x p) d b (same, declared) h =
    by_result (Automaton.advance x p b) refl h
  where
    by_result :
        (r : Option RtnPda)
        → Automaton.advance x p b ≡ r
        → moved_spec x p r ≡ moved d
        → Drives (Engine.spec a) d
    by_result none q k = absurd (cc)
    by_result (some m) q k =
        let eq : spec x m ≡ d = cc in
        subst (Drives (Engine.spec a)) eq
          (same, λ pushes. advance-IsDeclared x p m b pushes (declared pushes) q)
advance_byte-Drives Engine.fixed (spec x p) d b v h = absurd v
advance_byte-Drives (Engine.spec a) (fixed p) d b v h = absurd v

pub accept_byte-IsSession :
    (g : CompiledGrammar) (s t : DecoderSession) (b : ℕ)
    → IsSession g s
    → accept_byte s b ≡ ok t
    → IsSession g t
unfolding accept_byte
accept_byte-IsSession g s t b v h = by_result (advance_byte s.cursor b) refl h
  where
    by_result : (m : Moved) → advance_byte s.cursor b ≡ m → fed b s m ≡ ok t → IsSession g t
    by_result (refused n top) e q = err-ne-ok (dead_state s.offset b n top) t q
    by_result (moved c) e q = subst (IsSession g) (ok-injective _ t q) (
        moved-IsSession g s c (s.offset + 1) v
          (advance_byte-Drives g.engine s.cursor c b v.drives e))

cursor_reset-Drives : (e : Engine) (c : Cursor) → Drives e c → Drives e (cursor_reset c)
cursor_reset-Drives Engine.fixed (fixed p) d = tt
cursor_reset-Drives (Engine.spec a) (spec b p) (same, declared) = (same, λ pushes. tt)
cursor_reset-Drives Engine.fixed (spec x p) d = absurd d
cursor_reset-Drives (Engine.spec a) (fixed p) d = absurd d

pub reset-IsSession :
    (g : CompiledGrammar) (s : DecoderSession) → IsSession g s → IsSession g (reset s)
unfolding reset
reset-IsSession g s v =
    moved-IsSession g s (cursor_reset s.cursor) 0 v (cursor_reset-Drives g.engine s.cursor v.drives)
