-- ===== src/Session.antt =====
-- internal/session: durable sessions of automated clients.
pub mod Store
