-- ===== src/Gateway.antt =====
-- api-gateway-auth: users, roles, authentication, guards and routes of the API gateway.
pub mod Entities
pub mod Repository
mod Memory
pub mod Users
pub mod Roles
pub mod Tokens
pub mod Auth
pub mod Guards
pub mod Controllers
pub mod AuthRoutes
pub mod Monitoring
pub mod Routing
mod Tests
