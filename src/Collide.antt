-- ===== src/Collide.antt =====
-- The colliders: src/engine/hg-engine-common/src/collide.
pub mod Group
