-- ===== src/Authn.antt =====
-- internal/authn: who may log in, and how often.
pub mod Limiter
