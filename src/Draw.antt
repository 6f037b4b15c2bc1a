-- ===== src/Draw.antt =====
-- The drawing base: src/engine/hg-ctx2d/src/base, as far as it keeps state of its own.
pub mod Depth
pub mod Runs
pub mod Chunks
pub mod Buffers
