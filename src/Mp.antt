-- ===== src/Mp.antt =====
-- The multiplayer sessions: src/engine/hg-engine-common/src/mp.
pub mod Server
