-- ===== src/Gateway/Tests.antt =====
-- The gateway's services at concrete inputs, over the repositories of `Memory`.
mod Services
mod Access
mod Sessions
mod Monitoring
mod Routing
