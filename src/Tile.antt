-- ===== src/Tile.antt =====
-- The tiles of a level: src/engine/hg-engine-common/src/tile/.
pub mod Map
pub mod Palette
