-- ===== src/Queue.antt =====
-- delayquene/types.go and delayquene/riverquene.go: the queue over Postgres and River.
pub mod Types
pub mod Config
pub mod Validate
pub mod Ids
pub mod Store
pub mod Monad
pub mod Counts
pub mod Admin
pub mod Invariant
pub mod Requests
pub mod Spec
pub mod Reads
pub mod Worker
pub mod Sample
mod Examples
