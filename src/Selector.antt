-- ===== src/Selector.antt =====
-- internal/selector/selector.go: what a client points at on a page, as one text. Texts are sequences
-- of Unicode characters.
pub mod Kinds
pub mod Semantic
pub mod Trimmed
pub mod RoundTrip
mod Tests
