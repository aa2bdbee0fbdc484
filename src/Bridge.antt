-- ===== src/Bridge.antt =====
-- internal/bridge: how calls on the tabs of a browser are kept apart.
pub mod Tabs
