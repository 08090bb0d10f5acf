-- ===== src/Control.antt =====
-- The control database: records with versions, and transactions that check them.
-- Source: internal/control/store.go and internal/control/barq.go.
pub mod Types
pub mod Barq
pub mod Checks
pub mod Migrations
pub mod Store
