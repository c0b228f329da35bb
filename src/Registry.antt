-- ===== src/Registry.antt =====
-- internal/registry: the providers that the indexer knows, and who may register.
pub mod Policy
pub mod Sequences
pub mod State
pub mod Register
pub mod Update
pub mod Discovery
pub mod Poll
pub mod Load
pub mod Import
pub mod Lifecycle
pub mod Start
pub mod Json
pub mod Lotus
pub mod Tests
