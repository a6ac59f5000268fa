-- ===== src/Ecs/StaticWorld/Deferred.antt =====
-- The work that the systems of a layer put off, against the model.
use libcsics.Base.{
  ℕ, ◌^◌, ◌<◌, ◌≡◌, refl, sym, ap, ◌∙◌, inl, inr, false, not, List, [], ◌∷◌, none, some, ltb, ◌==◌,
  if◌then◌else◌, arith, ℕ-cases, Bool-cases, ==_refl, ne→not-==, ltb→lt,
}
use libcsics.Ecs.SparseSet.{Entity, SparseSet, insert, remove}
use libcsics.Ecs.SparseSet.Invariant.{IsSparseSet}
use libcsics.Ecs.SparseSet.Lookup.{component_of, put, insert-put}
use libcsics.Ecs.SparseSet.Remove.{remove-Removes}
use libcsics.Ecs.World.{World, found, has_entity}
use libcsics.Ecs.World
use libcsics.Ecs.World.Invariant.{live, remove_entity-IsWorld}
use libcsics.Ecs.StaticWorld.{
  StaticWorld, Action, DeferredEntity, WorldContext, for_each, with_set, add_component,
  remove_component, remove_entity, apply_action, apply_component, apply_entity, apply_context,
}
use libcsics.Ecs.StaticWorld.Room.{length-le}
use libcsics.Ecs.StaticWorld.Model.{
  Model, with_component, model_add, model_destroy, model_action, model_component, model_entity,
  model_context, with_set-IsStaticWorld, Agree, Both, fails, succeeds, Both->>=, Both-for_each,
}

found-live : (es : List Entity) (id : ℕ) → found es id ≡ not (live es id == 0)
found-live [] id = refl
found-live (e ∷ es) id = elim (ℕ-cases e.id id) [
  | inl eq ↦ rw (eq, ==_refl id) (ground arith)
  | inr ne ↦ rw (ne→not-== e.id id ne) (found-live es id ∙ ground arith)
]

found_congr :
    (es es' : List Entity) (id : ℕ) → live es id ≡ live es' id → found es id ≡ found es' id
found_congr es es' id same =
    found-live es id ∙ ap (λ (k : ℕ). not (k == 0)) same ∙ sym (found-live es' id)

remove_entity_gone :
    (w : World) (e : Entity) → found w.entities e.id ≡ false → World.remove_entity w e ≡ none
unfolding World.remove_entity
remove_entity_gone w e gone = rw gone

module _ {ℓ} {C : Type ℓ} (n : ℕ) (small : n < 2 ^ 63) (w : StaticWorld C) (m : Model C)
    (h : Agree n w m) where
  with_set-Agree :
      (k id : ℕ) (c : _) (s : SparseSet C)
      → IsSparseSet n s
      → ((i : ℕ) → i < n → component_of s i ≡ put (component_of (w.components k)) id c i)
      → Agree n (with_set w k s) (with_component m k id c)
  with_set-Agree k id c s valid entries = record {
    valid = with_set-IsStaticWorld n w k s h.valid valid;
    living = h.living;
    entries = λ j i lt. elim (ℕ-cases j k) [
      | inl eq ↦
          rw (eq, ==_refl k) (entries i lt ∙ ap (λ o. if i == id then c else o) (h.entries k i lt))
      | inr ne ↦ rw (ne→not-== j k ne) (h.entries j i lt)
    ];
  }

  insert_out : (s : SparseSet C) (e : Entity) (c : C) → ltb e.id n ≡ false → insert n s e c ≡ none
  unfolding insert
  insert_out s e c out = rw out

  add_component-Agree :
      (k : ℕ) (e : Entity) (c : C) → Both n (add_component n w k e c) (model_add n m k e c)
  unfolding add_component
  add_component-Agree k e c = elim (Bool-cases (ltb e.id n)) [
    | inl below ↦
        let few = length-le n (w.components k) (h.valid.sets k) in
        let (s, done, valid, entries) =
          insert-put n (w.components k) e c (h.valid.sets k) (ltb→lt e.id n below) (omega arith) in
        rw (done, below) (succeeds (with_set-Agree k e.id (some c) s valid entries))
    | inr out ↦ rw (insert_out (w.components k) e c out, out) fails
  ]

  remove_component-Agree :
      (k : ℕ) (e : Entity) → Agree n (remove_component n w k e) (with_component m k e.id none)
  unfolding remove_component
  remove_component-Agree k e =
      let r = remove-Removes n (w.components k) e (h.valid.sets k) in
      with_set-Agree k e.id none (remove n (w.components k) e) r.valid r.entries

  remove_entity-Agree : (e : Entity) → Both n (remove_entity w e) (model_destroy m e)
  unfolding remove_entity has_entity
  remove_entity-Agree e = elim (Bool-cases (found w.world.entities e.id)) [
    | inl here ↦
        let (world, done, valid, gone, others) = remove_entity-IsWorld w.world e h.valid.ids here in
        rw (done, sym (h.living e.id) ∙ here)
          (succeeds (record {
            valid = record { ids = valid; sets = h.valid.sets };
            living = λ id. elim (ℕ-cases id e.id) [
              | inl eq ↦ rw (eq, ==_refl e.id) gone
              | inr ne ↦
                  rw (ne→not-== id e.id ne)
                    (found_congr world.entities w.world.entities id (others id ne) ∙ h.living id)
            ];
            entries = h.entries;
          }))
    | inr gone ↦ rw (remove_entity_gone w.world e gone, sym (h.living e.id) ∙ gone) fails
  ]

module _ {ℓ} {C : Type ℓ} (n : ℕ) (small : n < 2 ^ 63) where
  apply_action-Agree :
      (a : Action C) (w : StaticWorld C) (m : Model C)
      → Agree n w m
      → Both n (apply_action n w a) (model_action n m a)
  unfolding apply_action
  apply_action-Agree (Action.add_component k e c) w m h = add_component-Agree n small w m h k e c
  apply_action-Agree (Action.remove_component k e) w m h =
      succeeds (remove_component-Agree n small w m h k e)
  apply_action-Agree (Action.destroy_entity e) w m h = remove_entity-Agree n small w m h e

  apply_component-Agree :
      (e : Entity) (c : ℕ × C) (w : StaticWorld C) (m : Model C)
      → Agree n w m
      → Both n (apply_component n e w c) (model_component n e m c)
  unfolding apply_component
  apply_component-Agree e (k, c) w m h = add_component-Agree n small w m h k e c

  apply_entity-Agree :
      (d : DeferredEntity C) (w : StaticWorld C) (m : Model C)
      → Agree n w m
      → Both n (apply_entity n w d) (model_entity n m d)
  unfolding apply_entity model_entity
  apply_entity-Agree d =
      Both-for_each n (apply_component n d.entity) (model_component n d.entity)
        (apply_component-Agree d.entity) d.components

  apply_context-Agree :
      (ctx : WorldContext C) (w : StaticWorld C) (m : Model C)
      → Agree n w m
      → Both n (apply_context n w ctx) (model_context n m ctx)
  unfolding apply_context model_context
  apply_context-Agree ctx w m h =
      Both->>= n (λ w'. for_each (apply_action n) w' ctx.deferred_actions)
        (λ m'. for_each (model_action n) m' ctx.deferred_actions)
        (Both-for_each n (apply_entity n) (model_entity n) apply_entity-Agree ctx.deferred_entities
          w m h)
        (Both-for_each n (apply_action n) (model_action n) apply_action-Agree ctx.deferred_actions)

  -- After a layer, the work that its contexts put off fails exactly when it does in the model: when a
  -- component is for an id beyond the capacity, or an entity that is not alive is destroyed. Otherwise
  -- it leaves a well-formed world with the ids and components of the model: the components of the
  -- new entities and then the actions of each context are applied in order.
  pub contexts-Agree :
      (contexts : List (WorldContext C)) (w : StaticWorld C) (m : Model C)
      → Agree n w m
      → Both n (for_each (apply_context n) w contexts) (for_each (model_context n) m contexts)
  contexts-Agree = Both-for_each n (apply_context n) (model_context n) apply_context-Agree
