-- ===== src/Tests.antt =====
-- The theorems of the other modules at concrete inputs, with primitives that satisfy the laws.
pub mod Toy
mod Sessions
mod Restore
mod Forgeries
mod Core
mod Server
pub mod Gateway
mod Profiles
mod Names
mod Peers
mod Probes
