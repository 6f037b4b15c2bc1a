-- ===== src/Iter.antt =====
-- The iterator adaptors of src/engine/hg-utils/src/iter.
pub mod Merge
