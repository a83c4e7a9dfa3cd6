-- ===== src/Builder/Companion.antt =====
-- core/src/builder/companion: the attribute macro that turns a struct of builders into a companion, a relay
-- chain with its parachains. `Parse` reads the struct; `Generated` is the code that the macro writes for it.
pub mod Parse
pub mod Generated
pub mod Expand
pub mod Reaching
pub mod Using
pub mod Progress
