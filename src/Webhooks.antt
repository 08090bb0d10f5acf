-- ===== src/Webhooks.antt =====
-- Webhooks: registrations, their revisions, and the delivery of change events to them.
-- Source: internal/webhooks/service.go, types.go and dispatcher.go.
pub mod Types
pub mod Deliver
pub mod Normalize
pub mod Service
pub mod Spared
pub mod Queue
pub mod Dispatch
