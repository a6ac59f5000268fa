-- ===== src/Ecs/World.antt =====
-- include/csics/sim/ecs/World.hpp: the entities of a `StaticWorld`, without its component sets, which
-- these three operations do not change: `remove_entity` removes components from copies of them.
pub mod Handles
pub mod Invariant
use libcsics.Base.{
  ℕ, ◌+◌, ◌-◌, ◌^◌, ◌%◌, Bool, false, true, List, [], ◌∷◌, Option, none, some, ◌==◌, if◌then◌else◌,
  length, get_or, set,
}
use libcsics.Ecs.SparseSet.{Entity, push_back, pop_back}

pub record World : Type 0 where
  pub entities : List Entity
  pub dead_entities : List ℕ
  pub generations : List ℕ

-- A new entity with the number of entities as its id.
abbrev pub fresh_entity : World → Entity × World
fresh_entity w =
    let e : Entity = record { id = length w.entities % 2 ^ 32; generation = 0 } in
    (e, record w { entities = push_back w.entities e; generations = push_back w.generations 0 })

-- The id that died last, with `generations_[e.id]++`.
abbrev pub reused_entity : World → ℕ → Entity × World
reused_entity w id =
    let generation_of = get_or w.generations id 0 in
    let e : Entity = record { id = id; generation = generation_of } in
    (
      e,
      record {
        entities = push_back w.entities e;
        dead_entities = pop_back w.dead_entities;
        generations = set w.generations id ((generation_of + 1) % 2 ^ 32);
      },
    )

-- `add_entity`.
unfoldable pub add_entity : World → Entity × World
add_entity w =
    if length w.dead_entities == 0
    then fresh_entity w
    else reused_entity w (get_or w.dead_entities (length w.dead_entities - 1) 0)

-- `std::find_if` by id, and the list without what it finds.
abbrev pub found : List Entity → ℕ → Bool
found [] id = false
found (e ∷ es) id = if e.id == id then true else found es id

abbrev pub erase : List Entity → ℕ → List Entity
erase [] id = []
erase (e ∷ es) id = let rest = erase es id in if e.id == id then es else e ∷ rest

-- `has_entity`.
unfoldable pub has_entity : World → Entity → Bool
has_entity w e = found w.entities e.id

-- `remove_entity`; none where its assertion fails.
unfoldable pub remove_entity : World → Entity → Option World
remove_entity w e =
    if found w.entities e.id
    then some (record w {
      entities = erase w.entities e.id;
      dead_entities = push_back w.dead_entities e.id;
    })
    else none
