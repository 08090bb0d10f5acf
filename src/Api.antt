-- ===== src/Api.antt =====
-- The HTTP API: internal/api/server.go.
pub mod Types
pub mod Replies
pub mod Tenants
pub mod Keys
pub mod Hooks
pub mod Rules
pub mod Objects
pub mod Routes
pub mod Served
pub mod Safety
