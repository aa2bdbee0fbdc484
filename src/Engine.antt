-- ===== src/Engine.antt =====
-- internal/engine: which engine serves a request.
pub mod Rules
pub mod Router
