-- ===== src/Backoffice.antt =====
-- frontend-dashboard/src/backoffice: the builders of modules, their store, and the state of forms.
pub mod Builder
pub mod Orders
pub mod Stock
pub mod Forms
pub mod Director
pub mod Store
mod Tests
