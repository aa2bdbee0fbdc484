-- ===== src/Instance.antt =====
-- internal/instance: which browser instances there are, which of them has a tab, and which one takes
-- the next request.
pub mod Repository
pub mod Locator
pub mod Policy
pub mod Allocator
pub mod Manager
mod Tests
