-- ===== src/Ecs/StaticWorld/Runs.antt =====
-- What a run keeps, whatever its systems do.
use libcsics.Base.{
  ℕ, ◌+◌, ◌-◌, ◌%◌, ◌^◌, ◌≤◌, ◌<◌, ◌≡◌, refl, inl, inr, List, [], ◌∷◌, Option, none, some, length,
  get_or, arith, All, ◌==◌, length-append, length-set, Bool-cases,
}
use libcsics.Ecs.SparseSet.{Entity}
use libcsics.Ecs.SparseSet.Invariant.{replaced, replaced-IsSparseSet}
use libcsics.Ecs.World.{World, add_entity, found}
use libcsics.Ecs.World
use libcsics.Ecs.World.Invariant.{add_entity-IsWorld}
use libcsics.Ecs.StaticWorld.{
  StaticWorld, Action, DeferredEntity, WorldContext, System, Layer, ◌>>=◌, for_each, with_set,
  add_component, remove_component, remove_entity, get_component, assign_component,
  context_add_entity, new_context, apply_action, apply_component, apply_entity, apply_context,
  run_system, run_systems, run_layer, run,
}
use libcsics.Ecs.StaticWorld.Model.{
  Model, IsStaticWorld, with_set-IsStaticWorld, model_of, model_of-Agree, Both, fails, succeeds,
}
use libcsics.Ecs.StaticWorld.Deferred.{contexts-Agree}

-- What holds of the result, if there is one.
abbrev pub IfSome {ℓ κ} : {A : Type ℓ} → (A → Type κ) → Option A → Type κ
IfSome P none = Unit
IfSome P (some x) = P x

IfSome->>= {ℓ κ μ ν} :
    {A : Type ℓ} {B : Type κ} (P : A → Type μ) (Q : B → Type ν) (o : Option A) (f : A → Option B)
    → IfSome P o
    → ((x : A) → P x → IfSome Q (f x))
    → IfSome Q (o >>= f)
IfSome->>= P Q none f h each = tt
IfSome->>= P Q (some x) f h each = each x h

IfSome-any {ℓ κ ν} :
    {A : Type ℓ} {B : Type κ} (Q : B → Type ν) (o : Option A) (f : A → Option B)
    → ((x : A) → IfSome Q (f x))
    → IfSome Q (o >>= f)
IfSome-any Q none f each = tt
IfSome-any Q (some x) f each = each x

IfSome-for_each {ℓ κ μ} :
    {S : Type ℓ} {A : Type κ} (P : S → Type μ) (f : S → A → Option S)
    → ((s : S) (x : A) → P s → IfSome P (f s x))
    → (xs : List A) (s : S) → P s
    → IfSome P (for_each f s xs)
unfolding for_each
IfSome-for_each P f each [] s h = h
IfSome-for_each P f each (x ∷ xs) s h =
    IfSome->>= P P (f s x) (λ s'. for_each f s' xs) (each s x h) (IfSome-for_each P f each xs)

add_entity-given : (w : World) → length w.generations ≤ length (add_entity w).1.generations
unfolding add_entity
add_entity-given w = elim (Bool-cases (length w.dead_entities == 0)) [
  | inl none_dead ↦ rw none_dead (omega (arith, length-append w.generations (0 ∷ [])))
  | inr some_dead ↦
      let id = get_or w.dead_entities (length w.dead_entities - 1) 0 in
      rw some_dead
        (omega (arith, length-set w.generations id ((get_or w.generations id 0 + 1) % 2 ^ 32)))
]

module _ {ℓ} {C : Type ℓ} where
  -- How many ids were given out.
  abbrev pub given : StaticWorld C → ℕ
  given w = length w.world.generations

  abbrev Given : ℕ → StaticWorld C → Type 0
  Given g w = given w ≡ g

  remove_entity-Given :
      (g : ℕ) (w : StaticWorld C) (e : Entity) → Given g w → IfSome (Given g) (remove_entity w e)
  unfolding remove_entity World.remove_entity
  remove_entity-Given g w e h = elim (Bool-cases (found w.world.entities e.id)) [
    | inl here ↦ rw here h
    | inr gone ↦ rw gone tt
  ]

  module _ (n g : ℕ) where
    add_component-Given :
        (w : StaticWorld C) (k : ℕ) (e : Entity) (c : C)
        → Given g w
        → IfSome (Given g) (add_component n w k e c)
    unfolding add_component
    add_component-Given w k e c h = IfSome-any (Given g) _ (λ s. some (with_set w k s)) (λ s. h)

    action-Given :
        (w : StaticWorld C) (a : Action C) → Given g w → IfSome (Given g) (apply_action n w a)
    unfolding apply_action remove_component
    action-Given w (Action.add_component k e c) h = add_component-Given w k e c h
    action-Given w (Action.remove_component k e) h = h
    action-Given w (Action.destroy_entity e) h = remove_entity-Given g w e h

    component-Given :
        (e : Entity) (w : StaticWorld C) (c : ℕ × C)
        → Given g w
        → IfSome (Given g) (apply_component n e w c)
    unfolding apply_component
    component-Given e w (k, c) h = add_component-Given w k e c h

    entity-Given :
        (w : StaticWorld C) (d : DeferredEntity C)
        → Given g w
        → IfSome (Given g) (apply_entity n w d)
    unfolding apply_entity
    entity-Given w d =
        IfSome-for_each (Given g) (apply_component n d.entity) (component-Given d.entity)
          d.components w

    context-Given :
        (w : StaticWorld C) (ctx : WorldContext C)
        → Given g w
        → IfSome (Given g) (apply_context n w ctx)
    unfolding apply_context
    context-Given w ctx h =
        IfSome->>= (Given g) (Given g) (for_each (apply_entity n) w ctx.deferred_entities)
          (λ w'. for_each (apply_action n) w' ctx.deferred_actions)
          (IfSome-for_each (Given g) (apply_entity n) entity-Given ctx.deferred_entities w h)
          (IfSome-for_each (Given g) (apply_action n) action-Given ctx.deferred_actions)

  module _ (n : ℕ) where
    -- The world is well formed as long as fewer than 2 ^ 32 ids were given out.
    abbrev pub Kept : StaticWorld C → Type ℓ
    Kept w = given w < 2 ^ 32 → IsStaticWorld n w

    Both-valid :
        (x : Option (StaticWorld C)) (y : Option (Model C))
        → Both n x y
        → IfSome (IsStaticWorld n) x
    Both-valid x y fails = tt
    Both-valid x y (succeeds h) = h.valid

    Both-Kept :
        (g : ℕ) (x : Option (StaticWorld C)) (y : Option (Model C))
        → IfSome (Given g) x
        → (g < 2 ^ 32 → Both n x y)
        → IfSome Kept x
    Both-Kept g none y same both = tt
    Both-Kept g (some w) y same both = λ few. Both-valid (some w) y (both (omega arith))

    contexts-Kept :
        n < 2 ^ 63
        → (contexts : List (WorldContext C)) (w : StaticWorld C) → Kept w
        → IfSome Kept (for_each (apply_context n) w contexts)
    contexts-Kept small contexts w h =
        Both-Kept (given w) (for_each (apply_context n) w contexts) _
          (IfSome-for_each (Given (given w)) (apply_context n) (context-Given n (given w)) contexts
            w refl)
          (λ few. contexts-Agree n small contexts w (model_of w) (model_of-Agree n w (h few)))

    fresh-Kept : (w : StaticWorld C) → Kept w → Kept (record w { world = (add_entity w.world).1 })
    fresh-Kept w h few =
        let before = h (omega (arith, add_entity-given w.world)) in
        record {
          ids = (add_entity-IsWorld w.world before.ids (omega (arith, add_entity-given w.world))).0;
          sets = before.sets;
        }

    assign-Kept :
        (w : StaticWorld C) (k : ℕ) (e : Entity) (c : C)
        → Kept w
        → IfSome Kept (assign_component n w k e c)
    unfolding assign_component
    assign-Kept w k e c h =
        IfSome-any Kept (get_component n w k e)
          (λ old. some (with_set w k (replaced (w.components k) e c)))
          (λ old few.
            with_set-IsStaticWorld n w k (replaced (w.components k) e c) (h few)
              (replaced-IsSparseSet n (w.components k) e ((h few).sets k) c))

    -- What a system returns: a world that is kept, and the context.
    abbrev Ran : StaticWorld C × WorldContext C → Type ℓ
    Ran ran = Kept ran.0

    run_system-Kept :
        (system : System C) (w : StaticWorld C) (ctx : WorldContext C)
        → Kept w
        → IfSome Ran (run_system n system w ctx)
    unfolding run_system
    run_system-Kept System.done w ctx h = h
    run_system-Kept (System.add_entity next) w ctx h =
        let made = context_add_entity w ctx in
        run_system-Kept (next made.0) made.1 made.2 (fresh-Kept w h)
    run_system-Kept (System.add_component k e c next) w ctx h =
        IfSome-any Ran _ _ (λ ctx'. run_system-Kept next w ctx' h)
    run_system-Kept (System.remove_component k e next) w ctx h =
        IfSome-any Ran _ _ (λ ctx'. run_system-Kept next w ctx' h)
    run_system-Kept (System.destroy_entity e next) w ctx h =
        IfSome-any Ran _ _ (λ ctx'. run_system-Kept next w ctx' h)
    run_system-Kept (System.assign k e c next) w ctx h =
        IfSome->>= Kept Ran (assign_component n w k e c) (λ w'. run_system n next w' ctx)
          (assign-Kept w k e c h) (λ w' h'. run_system-Kept next w' ctx h')

    abbrev RanAll : StaticWorld C × List (WorldContext C) → Type ℓ
    RanAll ran = Kept ran.0

    run_systems-Kept :
        (systems : List (StaticWorld C → System C)) (w : StaticWorld C)
        → Kept w
        → IfSome RanAll (run_systems n systems w)
    unfolding run_systems
    run_systems-Kept [] w h = h
    run_systems-Kept (system ∷ systems) w h =
        IfSome->>= Ran RanAll (run_system n (system w) w new_context) _
          (run_system-Kept (system w) w new_context h)
          (λ ran h'.
            IfSome->>= RanAll RanAll (run_systems n systems ran.0)
              (λ others. some (others.0, ran.1 ∷ others.1)) (run_systems-Kept systems ran.0 h')
              (λ others h''. h''))

    -- The hook leaves a world that is kept.
    abbrev pub HookKeeps : Layer C → Type ℓ
    HookKeeps layer = (w : StaticWorld C) → Kept w → IfSome Kept (layer.hook w)

    layer-Kept :
        n < 2 ^ 63
        → (layer : Layer C) (w : StaticWorld C) → HookKeeps layer
        → Kept w
        → IfSome Kept (run_layer n w layer)
    unfolding run_layer
    layer-Kept small layer w hook h =
        IfSome->>= RanAll Kept (run_systems n layer.systems w) _
          (run_systems-Kept layer.systems w h)
          (λ ran h'.
            IfSome->>= Kept Kept (layer.hook ran.0) (λ w'. for_each (apply_context n) w' ran.1)
              (hook ran.0 h') (contexts-Kept small ran.1))

    -- Whatever the systems of the layers do, a run that fails no assertion leaves a well-formed world,
    -- unless 2 ^ 32 ids are given out, where the hooks do so.
    pub run-Kept :
        n < 2 ^ 63
        → (layers : List (Layer C)) (w : StaticWorld C) → All HookKeeps layers
        → Kept w
        → IfSome Kept (run n w layers)
    unfolding run for_each
    run-Kept small [] w hooks h = h
    run-Kept small (layer ∷ layers) w (hook, hooks) h =
        IfSome->>= Kept Kept (run_layer n w layer) (λ w'. run n w' layers)
          (layer-Kept small layer w hook h) (λ w' h'. run-Kept small layers w' hooks h')
