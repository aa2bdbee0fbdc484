-- ===== src/Browser.antt =====
-- internal/browsersession: the sessions of the dashboard.
pub mod Sessions
