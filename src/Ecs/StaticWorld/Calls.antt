-- ===== src/Ecs/StaticWorld/Calls.antt =====
-- The calls that systems make in include/csics/sim/ecs/World.hpp, and those that are put off.
use libcsics.Base.{ℕ}
use libcsics.Ecs.SparseSet.{Entity}

-- `DeferredAction`.
pub data Action {ℓ} (C : Type ℓ) : Type ℓ where
  add_component : ℕ → Entity → C → Action C
  remove_component : ℕ → Entity → Action C
  destroy_entity : Entity → Action C

-- A system: an assignment goes through a reference of its view.
pub data System {ℓ} (C : Type ℓ) : Type ℓ where
  done : System C
  add_entity : (Entity → System C) → System C
  add_component : ℕ → Entity → C → System C → System C
  remove_component : ℕ → Entity → System C → System C
  destroy_entity : Entity → System C → System C
  assign : ℕ → Entity → C → System C → System C
