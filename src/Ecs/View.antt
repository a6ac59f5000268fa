-- ===== src/Ecs/View.antt =====
-- include/csics/sim/ecs/View.hpp: the iterator over the entities that have a component in each of some
-- sets. The iterator reads no component, so their types are one type here.
pub mod Visits
use libcsics.Base.{
  ℕ, zero, suc, ◌-◌, ◌^◌, Bool, true, false, ltb, if◌then◌else◌, List, [], ◌∷◌, Option, none, some,
  length,
}
use libcsics.Ecs.SparseSet.{Entity, SparseSet, contains}

-- `a && b`, which looks at b only if a holds; none for an assertion that fails.
abbrev and_also : Option Bool → Option Bool → Option Bool
and_also none b = none
and_also (some false) b = some false
and_also (some true) b = b

-- The entities that are left here, or those that are left later.
abbrev pub stop_at : Option Bool → List Entity → Option (List Entity) → Option (List Entity)
stop_at none here later = none
stop_at (some true) here later = some here
stop_at (some false) here later = later

abbrev pub and_later : Entity → Option (List Entity) → Option (List Entity)
and_later e none = none
and_later e (some later) = some (e ∷ later)

module _ {ℓ} {C : Type ℓ} where
  -- `find_smallest` behind the set that it begins with.
  abbrev pub smaller : List (SparseSet C) → ℕ → List Entity → List Entity
  smaller [] smallest entities = entities
  smaller (s ∷ ss) smallest entities =
      if ltb (length s.dense) smallest
      then smaller ss (length s.dense) s.entities
      else smaller ss smallest entities

  unfoldable pub find_smallest : SparseSet C → List (SparseSet C) → List Entity
  find_smallest s ss = smaller (s ∷ ss) (2 ^ 64 - 1) s.entities

  module _ (n : ℕ) where
    -- `contains`, for sets with a capacity of `n` ids.
    abbrev pub all_contain : List (SparseSet C) → Entity → Option Bool
    all_contain [] e = some true
    all_contain (s ∷ ss) e = and_also (contains n s e) (all_contain ss e)

    -- The constructor of the iterator, from the entities up to the end: those that are left.
    pub skip_to_next : List (SparseSet C) → List Entity → Option (List Entity)
    skip_to_next ss [] = some []
    skip_to_next ss (e ∷ es) = stop_at (all_contain ss e) (e ∷ es) (skip_to_next ss es)

    -- `for (auto t : view)`: the entities that are visited, with fuel for the steps.
    pub visited_from : ℕ → List (SparseSet C) → Option (List Entity) → Option (List Entity)
    visited_from fuel ss none = none
    visited_from fuel ss (some []) = some []
    visited_from zero ss (some (e ∷ es)) = none
    visited_from (suc fuel) ss (some (e ∷ es)) =
        and_later e (visited_from fuel ss (skip_to_next ss es))

    pub visited : ℕ → SparseSet C → List (SparseSet C) → Option (List Entity)
    visited fuel s ss = visited_from fuel (s ∷ ss) (skip_to_next (s ∷ ss) (find_smallest s ss))
