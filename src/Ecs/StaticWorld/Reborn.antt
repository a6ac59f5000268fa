-- ===== src/Ecs/StaticWorld/Reborn.antt =====
-- Entities whose ids are given out again.
use libcsics.Base.{ℕ, ◌%◌, ◌^◌, ◌<◌, ◌≡◌, refl, ap, ◌∙◌, [], some, length, arith, ==_refl}
use libcsics.Ecs.SparseSet.{Entity, SparseSet, absent, at}
use libcsics.Ecs.SparseSet.Generations.{insert-at}
use libcsics.Ecs.World.{World}
use libcsics.Ecs.World
use libcsics.Ecs.World.Handles.{add_entity-again}
use libcsics.Ecs.StaticWorld.{
  StaticWorld, with_set, add_entity, add_component, remove_entity, get_component,
}
use libcsics.Ecs.StaticWorld.Model.{IsStaticWorld}

fresh_id :
    (w : World) → w.dead_entities ≡ [] → (World.add_entity w).0.id ≡ length w.entities % 2 ^ 32
unfolding World.add_entity
fresh_id w none_dead = rw none_dead refl

module _ {ℓ} {C : Type ℓ} (n k : ℕ) where
  get_component-with_set :
      (w : StaticWorld C) (s : SparseSet C) (world : World) (e : Entity) (c : C)
      → at n s e ≡ some (some c)
      → get_component n (record (with_set w k s) { world = world }) k e ≡ some c
  unfolding get_component
  get_component-with_set w s world e c there = rw (==_refl k, there) refl

  -- In a world where no entity died, an entity is made, given a component, and removed: the next
  -- entity that is made has this component, though it was given none.
  pub get_component-reborn :
      (w : StaticWorld C) (c : C)
      → IsStaticWorld n w
      → n < 2 ^ 32
      → w.world.dead_entities ≡ []
      → length w.world.entities < n
      → (w.components k).sparse (length w.world.entities) ≡ absent
      → (w' : StaticWorld C) × (w'' : StaticWorld C) × (add_component n
            (add_entity w).1
            k
            (add_entity w).0
            c
          ≡ some w')
        × (remove_entity w' (add_entity w).0 ≡ some w'')
        × (get_component n (add_entity w'').1 k (add_entity w'').0 ≡ some c)
  unfolding add_component remove_entity
  get_component-reborn w c h small none_dead room lacks =
      let full : length w.world.generations ≡ length w.world.entities =
        omega (arith, h.ids.counted, ap length none_dead) in
      let e = (World.add_entity w.world).0 in
      let id_eq : e.id ≡ length w.world.entities = fresh_id w.world none_dead ∙ omega arith in
      let (s, done, there, _) =
        insert-at n (w.components k) e c (h.sets k) (omega arith)
          (ap (w.components k).sparse id_eq ∙ lacks) in
      let (world, removed, again) = add_entity-again w.world none_dead full (omega arith) in
      let w' : StaticWorld C = with_set (add_entity w).1 k s in
      (
        w',
        record w' { world = world },
        rw done refl,
        rw removed refl,
        ap (get_component n (record w' { world = (World.add_entity world).1 }) k) again
            ∙ get_component-with_set w s (World.add_entity world).1 e c there,
      )
