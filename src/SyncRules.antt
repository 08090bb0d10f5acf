-- ===== src/SyncRules.antt =====
-- Sync rules: the revisions of a database's access rules, which Core applies and the control
-- database records. Source: internal/syncrules/service.go.
pub mod Types
pub mod Keys
pub mod Finish
pub mod Service
pub mod Reconcile
pub mod Histories
