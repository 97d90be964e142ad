-- ===== src/Purecard/Compiled/Cache.antt =====
-- The cache of partitions: what a cell holds is the partition of its state.
use pure_analyzer.Shared.{
  ℕ, zero, suc, Option, none, some, List, [], ◌∷◌, ◌≡◌, refl, sym, ap, ◌∙◌, arith, ◌==◌, Bool-cases,
  inl, inr,
}
use pure_analyzer.Shared.Cells.{get_or, modify, replicate, get_or-replicate, get_or-modify_other}
use mathlib.Core.Path.{subst}
use pure_analyzer.Purecard.Vocab.{Vocab}
use pure_analyzer.Purecard.Grammar.State.{State}
use pure_analyzer.Purecard.Grammar.Index.{index, state_count}
use pure_analyzer.Purecard.Grammar.Numbering.{index-bijection}
use pure_analyzer.Purecard.Automaton
use pure_analyzer.Purecard.Automaton.{CompiledAutomaton}
use pure_analyzer.Purecard.Compiled.{
  Cached, Engine, CompiledGrammar, compile, from_automaton, mask_len, build_fixed, build_spec,
  or_init, get_or_init, cached, cached_spec,
}

-- The partition that belongs into a cell.
abbrev pub BuiltAt : Engine → Vocab → ℕ → Cached → Type 0
BuiltAt Engine.fixed v i c = (s : State) → index s ≡ i → c ≡ build_fixed s v (mask_len v)
BuiltAt (Engine.spec a) v i c = c ≡ build_spec a i v (mask_len v)

pub record IsCached (g : CompiledGrammar) : Type 0 where
  pub built : (i : ℕ) (c : Cached) → get_or none g.cache i ≡ some c → BuiltAt g.engine g.vocab i c

no_cell : (n i : ℕ) (c : Cached) → get_or none (replicate n none) i ≡ some c → ⊥
no_cell n i c h = (empty (sym (get_or-replicate n none i) ∙ h))
  where
    empty : none ≡ some c → ⊥
    empty q = cc

-- No partition is built before it is asked for.
pub compile-IsCached : (v : Vocab) → IsCached (compile v)
unfolding compile
compile-IsCached v = record { built = λ i c h. absurd (no_cell state_count i c h) }

pub from_automaton-IsCached : (a : CompiledAutomaton) (v : Vocab) → IsCached (from_automaton a v)
unfolding from_automaton
from_automaton-IsCached a v = record {
  built = λ i c h. absurd (no_cell (Automaton.state_count a) i c h);
}

filled_cell :
    (cells : List (Option Cached)) (i : ℕ) (c d : Cached)
    → get_or none (modify cells i (λ _. some c)) i ≡ some d
    → c ≡ d
filled_cell [] i c d h = absurd (empty h)
  where
    empty : none ≡ some d → ⊥
    empty q = cc
filled_cell (x ∷ xs) zero c d h = cc
filled_cell (x ∷ xs) (suc i) c d h = filled_cell xs i c d h

get_or_init-IsCached :
    (g : CompiledGrammar) (cell : ℕ) (built : Cached)
    → IsCached g
    → BuiltAt g.engine g.vocab cell built
    → ((c : Cached) → BuiltAt g.engine g.vocab cell c → c ≡ built)
    → ((get_or_init g cell built).0 ≡ built) × IsCached (get_or_init g cell built).1
unfolding get_or_init
get_or_init-IsCached g cell built v here unique =
    (held (get_or none g.cache cell) refl, record { built = kept })
  where
    held :
        (o : Option Cached)
        → get_or none g.cache cell ≡ o
        → or_init (get_or none g.cache cell) built ≡ built
    held none e = rw e refl
    held (some c) e = rw e (unique c (v.built cell c e))

    kept :
        (i : ℕ) (c : Cached)
        → get_or none (modify g.cache cell (λ _. some (or_init (get_or none g.cache cell) built))) i
          ≡ some c
        → BuiltAt g.engine g.vocab i c
    kept i c h = elim (Bool-cases (cell == i)) [
      | inl e ↦
          let same : i ≡ cell = ground arith in
          let q =
            filled_cell g.cache cell (or_init (get_or none g.cache cell) built) c (rw same at h) in
          subst (λ j. BuiltAt g.engine g.vocab j c) (sym same)
            (subst (BuiltAt g.engine g.vocab cell) (sym (held (get_or none g.cache cell) refl) ∙ q)
              here)
      | inr e ↦ v.built i c (
          sym (
            get_or-modify_other none g.cache cell i
              (λ _. some (or_init (get_or none g.cache cell) built)) e)
          ∙ h)
    ]

-- A visit returns the state's partition, whatever was visited before, and leaves the cache right.
pub cached-IsCached :
    (g : CompiledGrammar) (s : State)
    → g.engine ≡ Engine.fixed
    → IsCached g
    → ((cached g s).0 ≡ build_fixed s g.vocab (mask_len g.vocab)) × IsCached (cached g s).1
unfolding cached
cached-IsCached g s e v =
    get_or_init-IsCached g (index s) (build_fixed s g.vocab (mask_len g.vocab)) v
      (subst (λ n. BuiltAt n g.vocab (index s) (build_fixed s g.vocab (mask_len g.vocab))) (sym e)
        (λ t h. ap (λ u. build_fixed u g.vocab (mask_len g.vocab)) (sym (index-bijection.0 t s h))))
      (λ c h. subst (λ n. BuiltAt n g.vocab (index s) c) e h s refl)

pub cached_spec-IsCached :
    (g : CompiledGrammar) (a : CompiledAutomaton) (s : ℕ)
    → g.engine ≡ Engine.spec a
    → IsCached g
    → ((cached_spec g a s).0 ≡ build_spec a s g.vocab (mask_len g.vocab))
      × IsCached (cached_spec g a s).1
unfolding cached_spec
cached_spec-IsCached g a s e v =
    get_or_init-IsCached g s (build_spec a s g.vocab (mask_len g.vocab)) v
      (subst (λ n. BuiltAt n g.vocab s (build_spec a s g.vocab (mask_len g.vocab))) (sym e) refl)
      (λ c h. subst (λ n. BuiltAt n g.vocab s c) e h)
