-- ===== src/Store.antt =====
-- src/store.rs: the document store.
pub mod State
pub mod Fold
pub mod Admit
pub mod Apply
pub mod Local
pub mod Read
pub mod Feed
pub mod Replay
pub mod Verify
