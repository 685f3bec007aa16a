-- ===== src/Doc.antt =====
-- src/doc.rs: documents, vector clocks, operations and the per-field merge.
pub mod Clock
pub mod Data
pub mod Apply
pub mod Merge
