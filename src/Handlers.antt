-- ===== src/Handlers.antt =====
-- internal/handlers: what stands before the handlers of requests.
pub mod RateLimit
pub mod Grants
