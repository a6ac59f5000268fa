-- ===== src/Ecs/SparseSet/Generations.antt =====
-- What `at` finds after `insert`, by the generation of the entity.
use libcsics.Base.{
  ℕ, ◌<◌, ◌≡◌, ◌≢◌, refl, ap, ◌∙◌, none, some, true, length, get_elem?, arith, ne→not-==, ==_refl,
  lt→ltb,
}
use libcsics.Ecs.SparseSet.{
  Entity, SparseSet, absent, insert, at, contains, update_same, get_elem?-push_back_end,
}
use libcsics.Ecs.SparseSet.Invariant.{IsSparseSet, inserted, replaced}
use libcsics.Ecs.SparseSet.Lookup.{insert_new, insert_again}

module _ {ℓ} {C : Type ℓ} where
  at_owner :
      (n : ℕ) (s : SparseSet C) (e : Entity) (i : ℕ) (owner : Entity)
      → e.id < n
      → s.sparse e.id ≡ i
      → i ≢ absent
      → get_elem? s.entities i ≡ some owner
      → owner.generation ≡ e.generation
      → at n s e ≡ some (get_elem? s.dense i)
  unfolding at
  at_owner n s e i owner small there ne own same =
      rw (lt→ltb e.id n small, there, ne→not-== i absent ne, own, same, ==_refl e.generation)

  -- A component inserted for an entity that had none is found again, and `contains` says so.
  pub insert-at :
      (n : ℕ) (s : SparseSet C) (e : Entity) (c : C)
      → IsSparseSet n s
      → e.id < n
      → s.sparse e.id ≡ absent
      → (s' : SparseSet C) × (insert n s e c ≡ some s')
        × (at n s' e ≡ some (some c))
        × (contains n s' e ≡ some true)
  unfolding contains
  insert-at n s e c h small new =
      let there = update_same s.sparse e.id (length s.dense) in
      let apart : length s.dense ≢ absent = λ bad. let few = h.few in omega arith in
      (
        inserted s e c,
        insert_new n s e c small new,
        at_owner n (inserted s e c) e (length s.dense) e small there apart
              (ap (get_elem? ((inserted s e c).entities)) (omega (arith, h.same_length))
                ∙ get_elem?-push_back_end s.entities e)
              refl
            ∙ ap some (get_elem?-push_back_end s.dense c),
        rw (lt→ltb e.id n small, ==_refl e.id, ne→not-== (length s.dense) absent apart),
      )

  at_stale :
      (n : ℕ) (s : SparseSet C) (e owner : Entity)
      → e.id < n
      → s.sparse e.id ≢ absent
      → get_elem? s.entities (s.sparse e.id) ≡ some owner
      → owner.generation ≢ e.generation
      → at n s e ≡ some none
  unfolding at
  at_stale n s e owner small here own older = rw (
    lt→ltb e.id n small,
    ne→not-== (s.sparse e.id) absent here,
    own,
    ne→not-== owner.generation e.generation older,
  )

  -- When an entity of another generation still owns the id's component, inserting one for the new
  -- entity replaces the component but not its owner: the insertion succeeds, and `at` with the
  -- entity that it was made for finds nothing.
  pub insert-at_stale :
      (n : ℕ) (s : SparseSet C) (e owner : Entity) (c : C)
      → e.id < n
      → s.sparse e.id ≢ absent
      → get_elem? s.entities (s.sparse e.id) ≡ some owner
      → owner.generation ≢ e.generation
      → (s' : SparseSet C) × (insert n s e c ≡ some s') × (at n s' e ≡ some none)
  insert-at_stale n s e owner c small here own older = (
    replaced s e c,
    insert_again n s e c small here,
    at_stale n (replaced s e c) e owner small here own older,
  )
