-- ===== src/Model/Builtin.antt =====
-- The JSON definitions of the built-in models.
pub mod Space
pub mod Group
pub mod Chat
pub mod Drive
pub mod Package
pub mod Release
