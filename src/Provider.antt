-- ===== src/Provider.antt =====
-- The providers of `core/src/provider`.
pub mod Externalities
pub mod State
pub mod Backend
pub mod Initiator
