-- ===== src/Ecs/World/Handles.antt =====
-- The handles that a world gives out.
use libcsics.Base.{
  ℕ, ◌-◌, ◌^◌, ◌%◌, ◌<◌, ◌≡◌, refl, sym, ap, subst, ◌∙◌, inl, inr, true, List, [], ◌∷◌, some,
  length, get_or, arith, ==_refl, ne→not-==, ℕ-cases,
}
use libcsics.Ecs.SparseSet.{Entity, push_back}
use libcsics.Ecs.World.{
  World, add_entity, fresh_entity, reused_entity, has_entity, remove_entity, found, erase,
}

found-push_back : (es : List Entity) (e : Entity) → found (push_back es e) e.id ≡ true
found-push_back [] e = rw (==_refl e.id)
found-push_back (x ∷ es) e = elim (ℕ-cases x.id e.id) [
  | inl eq ↦ rw (eq, ==_refl e.id)
  | inr ne ↦ rw (ne→not-== x.id e.id ne) (found-push_back es e)
]

get_or-push_back : (xs : List ℕ) (v d : ℕ) → get_or (push_back xs v) (length xs) d ≡ v
get_or-push_back [] v d = refl
get_or-push_back (x ∷ xs) v d = get_or-push_back xs v d

-- The world has the entity that `add_entity` made, whether its id is new or reused.
pub add_entity-has_entity : (w : World) → has_entity (add_entity w).1 (add_entity w).0 ≡ true
unfolding add_entity has_entity
add_entity-has_entity w = elim (ℕ-cases (length w.dead_entities) 0) [
  | inl none_dead ↦ rw none_dead (found-push_back w.entities (fresh_entity w).0)
  | inr some_dead ↦
      let id = get_or w.dead_entities (length w.dead_entities - 1) 0 in
      rw (ne→not-== (length w.dead_entities) 0 some_dead)
        (found-push_back w.entities (reused_entity w id).0)
]

-- The world, the removal, and the handle of the next entity.
abbrev Again : World → Type 0
Again w =
    (w' : World) × (remove_entity (add_entity w).1 (add_entity w).0 ≡ some w')
    × ((add_entity w').0 ≡ (add_entity w).0)

none_dead-Again :
    (es : List Entity) (gens : List ℕ)
    → length gens ≡ length es
    → length es < 2 ^ 32
    → Again (record { entities = es; dead_entities = []; generations = gens })
unfolding add_entity remove_entity
none_dead-Again es gens full small =
    let e : Entity = record { id = length es % 2 ^ 32; generation = 0 } in
    let id_eq : length es % 2 ^ 32 ≡ length gens = omega arith in
    (
      record {
        entities = erase (push_back es e) e.id;
        dead_entities = e.id ∷ [];
        generations = push_back gens 0;
      },
      rw (found-push_back es e) refl,
      ap (λ (g : ℕ). record { id = length es % 2 ^ 32; generation = g })
          (ap (λ (k : ℕ). get_or (push_back gens 0) k 0) id_eq ∙ get_or-push_back gens 0 0),
    )

-- In a world where no entity died, an entity that is made and removed can be told from the next one
-- by neither its id nor its generation: the next one has the same handle.
pub add_entity-again :
    (w : World)
    → w.dead_entities ≡ []
    → length w.generations ≡ length w.entities
    → length w.entities < 2 ^ 32
    → (w' : World) × (remove_entity (add_entity w).1 (add_entity w).0 ≡ some w')
      × ((add_entity w').0 ≡ (add_entity w).0)
add_entity-again w none_dead full small =
    subst (λ (ids : List ℕ). Again (record w { dead_entities = ids })) (sym none_dead)
      (none_dead-Again w.entities w.generations full small)
