-- ===== src/Purecard.antt =====
-- crates/pure-analyzer-purecard: the constrained decoder.
pub mod Grammar
pub mod Mask
pub mod Vocab
pub mod Compiled
pub mod Spec
pub mod Automaton
pub mod Session
pub mod Schema
