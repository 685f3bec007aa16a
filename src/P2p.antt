-- ===== src/P2p.antt =====
-- The sync layer of src/p2p/: messages, invitations, co-signing and the engine.
pub mod Codec
pub mod Invite
pub mod Cosign
pub mod Engine
