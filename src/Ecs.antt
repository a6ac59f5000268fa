-- ===== src/Ecs.antt =====
-- include/csics/sim/ecs: the storage of components by entity.
pub mod SparseSet
pub mod World
pub mod View
pub mod StaticWorld
mod Tests
