-- ===== src/Tests.antt =====
-- Tests: concrete inputs for the theorems.
mod Encoding
mod Fixture
mod Docs
mod Actions
mod Stores
mod Folds
mod Models
mod Blobs
mod Releases
mod Tokens
mod Engines
mod Packages
mod Processors
