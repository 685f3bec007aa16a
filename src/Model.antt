-- ===== src/Model.antt =====
-- src/model/: document models, which turn a signed action into field writes.
pub mod Interface
pub mod Open
pub mod L1
pub mod Builtin
pub mod Registry
pub mod Persist
pub mod Laws
pub mod Private
