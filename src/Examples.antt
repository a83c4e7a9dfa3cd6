-- ===== src/Examples.antt =====
-- Small instances of the parameters (a storage, a node, a runtime), and the theorems applied on them.
mod Storage
mod Toy
mod Timestamps
mod Builders
mod Parachains
mod Relay
mod Waits
mod Commits
mod Genesis
mod Companions
mod Macros
mod Providers
mod Stored
