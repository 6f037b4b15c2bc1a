-- ===== src/Ecs.antt =====
-- The entity component system: src/engine/hg-ecs.
pub mod Archetype
pub mod Entity
pub mod Signal
