-- ===== src/Widgets.antt =====
-- frontend-dashboard: the state of two of its widgets, apart from what they render.
pub mod Select
pub mod Table
mod Tests
