-- ===== src/Auth.antt =====
-- API keys and tenants: internal/auth/manager.go and internal/auth/auth.go.
pub mod Types
pub mod Patterns
pub mod Normalize
pub mod Tenants
pub mod Spared
pub mod KeyChanges
pub mod Keys
pub mod Access
pub mod Bootstrap
