-- ===== src/Doc/Merge.antt =====
-- The per-field merge of `apply_op`: as a step on what a document shows, and its convergence.
pub mod Order
pub mod View
pub mod Converge
