-- ===== src/Bridge/Tabs.antt =====
-- internal/bridge/tabs: the ownership of tabs, and the execution of tasks on them.
pub mod Lock
pub mod Executor
