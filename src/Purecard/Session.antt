-- ===== src/Purecard/Session.antt =====
-- crates/pure-analyzer-purecard/src/session.rs: `DecoderSession` with no schema. The grammar, whose
-- cache a session fills, is passed along and returned. A state's cursor over a supplied automaton
-- holds that automaton, as `RtnPda` holds a reference to it.
use Prim.Native.String.{String}
use pure_analyzer.Shared.{
  ℕ, zero, suc, ◌+◌, Bool, true, false, Option, none, some, List, [], ◌∷◌, ◌==◌, if◌then◌else◌,
  length,
}
use pure_analyzer.Purecard.Mask.{BitMask, with_len, set, clear, copy_from}
use pure_analyzer.Purecard.Vocab.{Vocab, bytes}
use pure_analyzer.Purecard.Grammar.Pda
use pure_analyzer.Purecard.Grammar.Pda.{Pda}
use pure_analyzer.Purecard.Automaton
use pure_analyzer.Purecard.Automaton.{CompiledAutomaton, RtnPda}
use pure_analyzer.Purecard.Compiled.{
  Cached, Engine, CompiledGrammar, eos_bit, mask_len, token, cached, cached_spec,
}
pub mod Masks
pub mod Verdicts
pub mod Sound
pub mod Kept
pub mod Calls
pub mod Reach
pub mod Hosted
pub mod Offered
mod Tests

-- error.rs
pub data DecodeError : Type 0 where
  dead_state : ℕ → ℕ → String → String → DecodeError
  inadmissible_token : ℕ → DecodeError
  unknown_token : ℕ → DecodeError
  unexpected_eos schema_requires_fixed_grammar : DecodeError

pub data Cursor : Type 0 where
  fixed : Pda → Cursor
  spec : CompiledAutomaton → RtnPda → Cursor

abbrev pub new_cursor : Engine → Cursor
new_cursor Engine.fixed = fixed Pda.new
new_cursor (Engine.spec a) = spec a (Automaton.new a)

abbrev pub cursor_cached : CompiledGrammar → Cursor → Cached × CompiledGrammar
cursor_cached g (fixed p) = cached g p.state
cursor_cached g (spec a p) = cached_spec g a p.state

abbrev pub non_empty {ℓ} : {A : Type ℓ} → List A → Bool
non_empty [] = false
non_empty (x ∷ xs) = true

abbrev pub stack_top_present : Cursor → Bool
stack_top_present (fixed p) = non_empty p.stack
stack_top_present (spec a p) = non_empty p.stack

abbrev pub cursor_admits : Cursor → List ℕ → Bool
cursor_admits (fixed p) t = Pda.admits p t
cursor_admits (spec a p) t = Automaton.admits a p t

abbrev pub cursor_is_accepting : Cursor → Bool
cursor_is_accepting (fixed p) = Pda.is_accepting p
cursor_is_accepting (spec a p) = Automaton.is_accepting a p

abbrev pub cursor_reset : Cursor → Cursor
cursor_reset (fixed p) = fixed Pda.new
cursor_reset (spec a p) = spec a (Automaton.new a)

-- `Ok` is the cursor moved, `Err` the names of the state and the top frame.
pub data Moved : Type 0 where
  moved : Cursor → Moved
  refused : String → String → Moved

abbrev pub moved_fixed : Pda.Result Pda → Moved
moved_fixed (Pda.Result.ok q) = moved (fixed q)
moved_fixed (Pda.Result.err e) = refused e.state e.stack_top

abbrev pub moved_spec : CompiledAutomaton → RtnPda → Option RtnPda → Moved
moved_spec a p (some q) = moved (spec a q)
moved_spec a p none =
    refused (Automaton.state_name a p.state) (Automaton.frame_name a (Automaton.last p.stack))

unfoldable pub advance_byte : Cursor → ℕ → Moved
advance_byte (fixed p) b = moved_fixed (Pda.advance p b)
advance_byte (spec a p) b = moved_spec a p (Automaton.advance a p b)

abbrev then_bytes : (RtnPda → Option RtnPda) → Option RtnPda → Option RtnPda
then_bytes k none = none
then_bytes k (some p) = k p

-- The bytes of a token, fed to a clone of the automaton.
unfoldable pub run_spec : CompiledAutomaton → RtnPda → List ℕ → Option RtnPda
run_spec a p [] = some p
run_spec a p (b ∷ bs) = then_bytes (λ q. run_spec a q bs) (Automaton.advance a p b)

abbrev pub accepted_fixed : Pda.Result Pda → Option Cursor
accepted_fixed (Pda.Result.ok q) = some (fixed q)
accepted_fixed (Pda.Result.err e) = none

abbrev pub accepted_spec : CompiledAutomaton → Option RtnPda → Option Cursor
accepted_spec a none = none
accepted_spec a (some q) = some (spec a q)

-- `none` where the token is refused, and then the cursor stays as it was.
unfoldable pub try_accept_token : Cursor → List ℕ → Option Cursor
unfolding run_spec
try_accept_token (fixed p) t = accepted_fixed (Pda.run p t)
try_accept_token (spec a p) t = accepted_spec a (run_spec a p t)

pub record DecoderSession : Type 0 where
  pub cursor : Cursor
  pub offset : ℕ
  pub mask : BitMask

unfoldable pub new : CompiledGrammar → DecoderSession
new g = record { cursor = new_cursor g.engine; offset = 0; mask = with_len (mask_len g.vocab) }

unfoldable pub set_admitted : Cursor → Vocab → List ℕ → BitMask → BitMask
set_admitted c v [] m = m
set_admitted c v (id ∷ ids) m =
    set_admitted c v ids (if cursor_admits c (token v id) then set m id else m)

abbrev pub reprobed : Cursor → Vocab → List ℕ → BitMask → BitMask
reprobed c v ids m = if stack_top_present c then set_admitted c v ids m else m

abbrev pub with_eos : Bool → ℕ → BitMask → BitMask
with_eos accepting eos m = if accepting then set m eos else clear m eos

unfoldable pub allowed_mask : CompiledGrammar → DecoderSession → DecoderSession × CompiledGrammar
unfolding set_admitted
allowed_mask g s =
    let (c, g') = cursor_cached g s.cursor in
    let m = reprobed s.cursor g.vocab c.deferred (copy_from s.mask c.indep) in
    (record s { mask = with_eos (cursor_is_accepting s.cursor) (eos_bit g.vocab) m }, g')

pub data Accepted : Type 0 where
  ok : DecoderSession → Accepted
  err : DecodeError → Accepted

abbrev pub accept_eos : DecoderSession → Accepted
accept_eos s = if cursor_is_accepting s.cursor then ok s else err unexpected_eos

abbrev pub advanced : ℕ → List ℕ → DecoderSession → Option Cursor → Accepted
advanced id t s none = err (inadmissible_token id)
advanced id t s (some c) = ok (record s { cursor = c; offset = s.offset + length t })

abbrev pub accept_bytes : ℕ → DecoderSession → Option (List ℕ) → Accepted
accept_bytes id s none = err (unknown_token id)
accept_bytes id s (some t) = advanced id t s (try_accept_token s.cursor t)

unfoldable pub accept_token : CompiledGrammar → DecoderSession → ℕ → Accepted
unfolding try_accept_token
accept_token g s id =
    if id == eos_bit g.vocab then accept_eos s else accept_bytes id s (bytes g.vocab id)

-- `is_complete` and `reset`, where the schema's part is idle.
abbrev pub is_complete : DecoderSession → Bool
is_complete s = cursor_is_accepting s.cursor

unfoldable pub reset : DecoderSession → DecoderSession
reset s = record s { cursor = cursor_reset s.cursor; offset = 0 }

abbrev pub fed : ℕ → DecoderSession → Moved → Accepted
fed b s (moved c) = ok (record s { cursor = c; offset = s.offset + 1 })
fed b s (refused state top) = err (dead_state s.offset b state top)

unfoldable pub accept_byte : DecoderSession → ℕ → Accepted
unfolding advance_byte
accept_byte s b = fed b s (advance_byte s.cursor b)
