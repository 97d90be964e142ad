-- ===== src/Purecard/Schema.antt =====
-- crates/pure-analyzer-purecard/src/schema: what narrows a mask to the names of a schema.
pub mod Trie
pub mod Nodes
pub mod Labels
pub mod Legal
pub mod Stays
mod Tests
