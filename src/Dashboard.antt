-- ===== src/Dashboard.antt =====
-- frontend-dashboard: the session, kept in step with the authentication application.
pub mod Session
mod Tests
