-- ===== src/AuthApp.antt =====
-- frontend-auth: the session store, the router and the messages to the embedding window.
pub mod Store
pub mod Router
pub mod Messaging
mod Tests
