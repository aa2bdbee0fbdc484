-- ===== src/Orchestrator.antt =====
-- internal/orchestrator: the ports of the instances, and which instance serves a client again.
pub mod Ports
pub mod Bindings
pub mod TabsCache
