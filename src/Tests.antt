-- ===== src/Tests.antt =====
-- Concrete runs, at which the theorems apply.
mod Database
mod Dispatch
mod Documents
mod Hooks
mod Keys
mod Migrations
mod Server
mod SyncRules
