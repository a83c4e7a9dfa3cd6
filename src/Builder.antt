-- ===== src/Builder.antt =====
-- The chain builders of `core/src/builder`.
pub mod Core
pub mod Common
pub mod StandAlone
pub mod Parachain
pub mod RelayChain
pub mod Companion
