-- ===== src/Inherent.antt =====
-- The inherent data providers of `core/src/inherent`.
pub mod Timestamp
pub mod Parachains
