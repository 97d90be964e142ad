-- ===== src/Lsp.antt =====
-- crates/pure-analyzer-lsp: the language server.
pub mod Chars
pub mod Document
pub mod Lines
pub mod Positions
pub mod Offsets
pub mod Changes
pub mod Store
pub mod Versions
pub mod Newer
mod Tests
