-- ===== src/Strategy.antt =====
-- internal/strategy: how the server keeps its browser instances alive.
pub mod Autorestart
