-- ===== src/Purecard/Compiled.antt =====
-- crates/pure-analyzer-purecard/src/grammar/compiled.rs: `CompiledGrammar`, a vocabulary and
-- an automaton. The cache of a state is filled on its first visit; a `OnceCell` is an option, and the
-- mutation of the shared cache is the returned grammar. A cell is read by the id of a state of the
-- grammar's own automaton; an id past the last cell, where the source's indexing panics, reads `none`.
use pure_analyzer.Shared.{
  ℕ, zero, suc, ◌+◌, ◌%◌, ◌++◌, Bool, true, false, Option, none, some, List, [], ◌∷◌, if◌then◌else◌,
  get_elem?,
}
use pure_analyzer.Shared.Cells.{get_or, modify, replicate}
use pure_analyzer.Purecard.Vocab.{Vocab, bytes, len}
use pure_analyzer.Purecard.Mask.{BitMask, with_len, set}
use pure_analyzer.Purecard.Grammar.State.{State}
use pure_analyzer.Purecard.Grammar.Index.{index, state_count}
use pure_analyzer.Purecard.Grammar.Pda.{Pda, Probe, at, probe}
use pure_analyzer.Purecard.Automaton
use pure_analyzer.Purecard.Automaton.{CompiledAutomaton, RtnProbe}
pub mod Cache
pub mod Lookup
mod Tests

-- The partition of the vocabulary at a state.
pub record Cached : Type 0 where
  pub indep : BitMask
  pub deferred : List ℕ

pub data Engine : Type 0 where
  fixed : Engine
  spec : CompiledAutomaton → Engine

pub record CompiledGrammar : Type 0 where
  pub vocab : Vocab
  pub engine : Engine
  pub cache : List (Option Cached)

unfoldable pub compile : Vocab → CompiledGrammar
compile v = record { vocab = v; engine = fixed; cache = replicate state_count none }

-- `from_spec`, from the automaton that the spec was lowered to.
unfoldable pub from_automaton : CompiledAutomaton → Vocab → CompiledGrammar
from_automaton a v = record {
  vocab = v;
  engine = spec a;
  cache = replicate (Automaton.state_count a) none;
}

-- 2 ^ 32
abbrev pub u32_bound : ℕ
u32_bound = 4_294_967_296

-- `vocab.len() as u32`, which drops the bits past the 32nd.
unfoldable pub count : Vocab → ℕ
count v = len v % u32_bound

abbrev pub eos_bit : Vocab → ℕ
eos_bit v = count v

abbrev pub mask_len : Vocab → ℕ
mask_len v = eos_bit v + 1

-- One round of the loop over the tokens.
abbrev pub place : ℕ → Probe → Cached → Cached
place id p c =
    if p.consulted_ambient
    then record c { deferred = c.deferred ++ id ∷ [] }
    else if p.alive
    then record c { indep = set c.indep id }
    else c

-- `vocab.bytes(id).unwrap_or(&[])`
abbrev pub unwrap_or_nil : Option (List ℕ) → List ℕ
unwrap_or_nil none = []
unwrap_or_nil (some t) = t

abbrev pub token : Vocab → ℕ → List ℕ
token v id = unwrap_or_nil (bytes v id)

-- The loop over the ids from `id` on, `rounds` of them.
unfoldable pub partition : (ℕ → Probe) → ℕ → ℕ → Cached → Cached
partition verdict id zero c = c
partition verdict id (suc rounds) c = partition verdict (suc id) rounds (place id (verdict id) c)

abbrev pub nothing_cached : ℕ → Cached
nothing_cached mask_len = record { indep = with_len mask_len; deferred = [] }

unfoldable pub build_fixed : State → Vocab → ℕ → Cached
unfolding partition
build_fixed s v mask_len =
    partition (λ id. probe (at s) (token v id)) 0 (count v) (nothing_cached mask_len)

abbrev pub as_probe : RtnProbe → Probe
as_probe p = record { alive = p.alive; consulted_ambient = p.consulted_ambient }

unfoldable pub build_spec : CompiledAutomaton → ℕ → Vocab → ℕ → Cached
unfolding partition
build_spec a s v mask_len =
    partition (λ id. as_probe (Automaton.probe a (Automaton.at s) (token v id))) 0 (count v)
      (nothing_cached mask_len)

-- `get_or_init`: what the cell holds, or the partition, which then fills it.
abbrev pub or_init : Option Cached → Cached → Cached
or_init (some c) d = c
or_init none d = d

unfoldable pub get_or_init : CompiledGrammar → ℕ → Cached → Cached × CompiledGrammar
get_or_init g cell built =
    let c = or_init (get_or none g.cache cell) built in
    (c, record g { cache = modify g.cache cell (λ _. some c) })

unfoldable pub cached : CompiledGrammar → State → Cached × CompiledGrammar
unfolding build_fixed get_or_init
cached g s = get_or_init g (index s) (build_fixed s g.vocab (mask_len g.vocab))

unfoldable pub cached_spec : CompiledGrammar → CompiledAutomaton → ℕ → Cached × CompiledGrammar
unfolding build_spec get_or_init
cached_spec g a s = get_or_init g s (build_spec a s g.vocab (mask_len g.vocab))
