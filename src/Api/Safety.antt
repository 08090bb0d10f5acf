-- ===== src/Api/Safety.antt =====
-- What requests cannot do.
pub mod Reader
pub mod Getting
pub mod Roots
pub mod Isolation
