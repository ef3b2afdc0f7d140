-- ===== src/Rules.antt =====
-- The registries of rules.py over a directory of files.
pub mod Segments
pub mod Registry
pub mod Drafts
