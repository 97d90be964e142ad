-- ===== src/Purecard/Vocab.antt =====
-- crates/pure-analyzer-purecard/src/vocab.rs: `Vocab`, the tokens of a model in the order of their ids.
use pure_analyzer.Shared.{ℕ, Option, List, length, get_elem?}

pub record Vocab : Type 0 where
  pub tokens : List (List ℕ)

abbrev pub bytes : Vocab → ℕ → Option (List ℕ)
bytes v id = get_elem? v.tokens id

abbrev pub len : Vocab → ℕ
len v = length v.tokens
