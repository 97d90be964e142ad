-- ===== src/Purecard/Grammar.antt =====
-- crates/pure-analyzer-purecard/src/grammar: the byte-level pushdown automaton.
pub mod State
pub mod Names
pub mod Index
pub mod Bytes
pub mod Hubs
pub mod Lexemes
pub mod Binders
pub mod Dispatch
pub mod Pda
pub mod Brackets
pub mod Nesting
pub mod Accepting
pub mod Replay
pub mod Frames
pub mod Finish
pub mod Completion
pub mod Numbering
pub mod Delegation
mod Tests
pub mod Stable
pub mod Partition
