-- ===== src/Ecs/Tests.antt =====
-- The theorems on the sparse set at concrete sets of numbers, with a capacity of eight ids.
use libcsics.Base.{
  ℕ, ◌<◌, ◌≡◌, ◌≢◌, refl, List, [], ◌∷◌, some, true, false, arith, length, if◌then◌else◌,
}
use libcsics.Ecs.SparseSet.{Entity, SparseSet, empty_set, insert, remove}
use libcsics.Ecs.SparseSet.Invariant.{
  IsSparseSet, inserted, inserted-IsSparseSet, empty_set-IsSparseSet,
}
use libcsics.Ecs.SparseSet.Lookup.{component_of, put, insert-put}
use libcsics.Ecs.SparseSet.Remove.{Removes, remove-Removes}
use libcsics.Ecs.World.{World, add_entity, has_entity, remove_entity}
use libcsics.Ecs.World.Invariant.{IsWorld, live, add_entity-IsWorld, remove_entity-IsWorld}
use libcsics.Ecs.View.{find_smallest, visited}
use libcsics.Ecs.View.Visits.{has_all, visited-has_all}

abbrev five : Entity
five = record { id = 5; generation = 0 }

abbrev two : Entity
two = record { id = 2; generation = 1 }

-- Another generation of the id 5.
abbrev five_again : Entity
five_again = record { id = 5; generation = 1 }

abbrev none_yet : SparseSet ℕ
none_yet = empty_set

abbrev with_five : SparseSet ℕ
with_five = inserted none_yet five 10

abbrev with_both : SparseSet ℕ
with_both = inserted with_five two 20

with_five-IsSparseSet : IsSparseSet 8 with_five
with_five-IsSparseSet =
    inserted-IsSparseSet 8 none_yet five (empty_set-IsSparseSet 8) 10 (omega arith) refl
      (omega arith)

with_both-IsSparseSet : IsSparseSet 8 with_both
with_both-IsSparseSet =
    inserted-IsSparseSet 8 with_five two with_five-IsSparseSet 20 (omega arith) refl (omega arith)

insert-put_example :
    (s' : SparseSet ℕ) × (insert 8 with_both five 30 ≡ some s')
    × IsSparseSet 8 s'
    × ((id : ℕ) → id < 8 → component_of s' id ≡ put (component_of with_both) 5 (some 30) id)
insert-put_example =
    insert-put 8 with_both five 30 with_both-IsSparseSet (omega arith) (omega arith)

remove-Removes_example : Removes 8 with_both five (remove 8 with_both five)
remove-Removes_example = remove-Removes 8 with_both five with_both-IsSparseSet

-- A world with one entity.
abbrev small_world : World
small_world = record {
  entities = record { id = 0; generation = 0 } ∷ [];
  dead_entities = [];
  generations = 0 ∷ [];
}

-- A world in which one of two entities died.
abbrev half_dead : World
half_dead = record {
  entities = record { id = 1; generation = 0 } ∷ [];
  dead_entities = 0 ∷ [];
  generations = 0 ∷ 0 ∷ [];
}

half_dead-IsWorld : IsWorld half_dead
half_dead-IsWorld = record {
  counted = refl;
  once = λ id lt. ground arith;
  none_beyond = λ id le. ground arith;
}

add_entity-IsWorld_example :
    IsWorld (add_entity half_dead).1 × (live half_dead.entities (add_entity half_dead).0.id ≡ 0)
add_entity-IsWorld_example = add_entity-IsWorld half_dead half_dead-IsWorld (omega arith)

has_one : has_entity half_dead (record { id = 1; generation = 0 }) ≡ true
unfolding has_entity
has_one = refl

remove_entity-IsWorld_example :
    (w' : World) × (remove_entity half_dead (record { id = 1; generation = 0 }) ≡ some w')
    × IsWorld w'
    × (has_entity w' (record { id = 1; generation = 0 }) ≡ false)
    × ((id : ℕ) → id ≢ 1 → live w'.entities id ≡ live half_dead.entities id)
remove_entity-IsWorld_example =
    remove_entity-IsWorld half_dead (record { id = 1; generation = 0 }) half_dead-IsWorld has_one

-- The view of two sets of numbers, of which five alone is in both.
smallest_one : length (find_smallest with_both (with_five ∷ [])) ≡ 1
unfolding find_smallest
smallest_one = refl

visited-has_all_example :
    (es : List Entity) × (visited 8 1 with_both (with_five ∷ []) ≡ some es)
    × ((id : ℕ) → id < 8 → live es id ≡ (if has_all (with_both ∷ with_five ∷ []) id then 1 else 0))
visited-has_all_example =
    visited-has_all 8 1 with_both (with_five ∷ [])
      (with_both-IsSparseSet, (with_five-IsSparseSet, tt)) (omega (arith, smallest_one))
