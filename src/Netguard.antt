-- ===== src/Netguard.antt =====
-- internal/netguard/netguard.go: which addresses a request may go to.
pub mod Addresses
pub mod Resolve
pub mod Ranges
pub mod Public
mod Tests
