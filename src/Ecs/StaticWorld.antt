-- ===== src/Ecs/StaticWorld.antt =====
-- include/csics/sim/ecs/World.hpp: a world with its component sets, and `run` with the work that the
-- systems of a layer defer. A component type is a number, and its set that number's; all types of
-- components are one type here, of which each set holds those with its number. `none` is an assertion
-- that fails. A system is the list of calls that it makes, each of which can depend on what the calls
-- before returned.
mod Calls
mod Room
pub mod Model
pub mod Deferred
pub mod Dead
pub mod Runs
pub mod Reborn
mod Tests
use libcsics.Base.{
  ℕ, Bool, true, false, List, [], ◌∷◌, Option, none, some, ◌==◌, if◌then◌else◌, set,
}
use libcsics.Ecs.SparseSet.{Entity, SparseSet, push_back, insert, at, remove}
use libcsics.Ecs.World.{World, found}
use libcsics.Ecs.World
pub use Calls.{Action, System}

infixl 5 ◌>>=◌
abbrev pub ◌>>=◌ {ℓ κ} : {A : Type ℓ} {B : Type κ} → Option A → (A → Option B) → Option B
none >>= f = none
some a >>= f = f a

-- `for (const auto& x : xs)` over what changes a state.
unfoldable pub for_each {ℓ κ} :
    {S : Type ℓ} {A : Type κ} → (S → A → Option S) → S → List A → Option S
for_each f s [] = some s
for_each f s (x ∷ xs) = f s x >>= λ s'. for_each f s' xs

pub record StaticWorld {ℓ} (C : Type ℓ) : Type ℓ where
  pub world : World
  pub components : ℕ → SparseSet C

pub record DeferredEntity {ℓ} (C : Type ℓ) : Type ℓ where
  pub entity : Entity
  pub components : List (ℕ × C)

-- `WorldContext`, without its reference to the world.
pub record WorldContext {ℓ} (C : Type ℓ) : Type ℓ where
  pub deferred_actions : List (Action C)
  pub deferred_entities : List (DeferredEntity C)

-- A layer's systems, as what they do in the world that they start in, and the hook behind it.
pub record Layer {ℓ} (C : Type ℓ) : Type ℓ where
  pub systems : List (StaticWorld C → System C)
  pub hook : StaticWorld C → Option (StaticWorld C)

module _ {ℓ} {C : Type ℓ} where
  abbrev pub with_set : StaticWorld C → ℕ → SparseSet C → StaticWorld C
  with_set w k s = record w { components = λ j. if j == k then s else w.components j }

  abbrev pub new_context : WorldContext C
  new_context = record { deferred_actions = []; deferred_entities = [] }

  -- `WorldContext::add_entity`, behind the world's.
  abbrev pub defer_entity :
      StaticWorld C → WorldContext C → Entity × World → Entity × StaticWorld C × WorldContext C
  defer_entity w ctx (e, world) = (
    e,
    record w { world = world },
    record ctx {
      deferred_entities = push_back ctx.deferred_entities (record { entity = e; components = [] });
    },
  )

  abbrev pub context_add_entity :
      StaticWorld C → WorldContext C → Entity × StaticWorld C × WorldContext C
  context_add_entity w ctx = defer_entity w ctx (World.add_entity w.world)

  -- `std::find_if` by id among the deferred entities, and `emplace_back` to what it finds.
  abbrev pub deferred : List (DeferredEntity C) → ℕ → Bool
  deferred [] id = false
  deferred (d ∷ ds) id = if d.entity.id == id then true else deferred ds id

  abbrev pub emplace_back : List (DeferredEntity C) → ℕ → ℕ × C → List (DeferredEntity C)
  emplace_back [] id c = []
  emplace_back (d ∷ ds) id c =
      let rest = emplace_back ds id c in
      if d.entity.id == id
      then record d { components = push_back d.components c } ∷ ds
      else d ∷ rest

  -- An action is put off, behind the assertion that the world has the entity.
  abbrev pub defer_action :
      StaticWorld C → WorldContext C → Entity → Action C → Option (WorldContext C)
  defer_action w ctx e action =
      if found w.world.entities e.id
      then some (record ctx { deferred_actions = push_back ctx.deferred_actions action })
      else none

  -- `WorldContext::add_component`, `remove_component` and `destroy_entity`.
  unfoldable pub context_add_component :
      StaticWorld C → WorldContext C → ℕ → Entity → C → Option (WorldContext C)
  context_add_component w ctx k e c =
      if deferred ctx.deferred_entities e.id
      then some (record ctx { deferred_entities = emplace_back ctx.deferred_entities e.id (k, c) })
      else defer_action w ctx e (Action.add_component k e c)

  abbrev pub context_remove_component :
      StaticWorld C → WorldContext C → ℕ → Entity → Option (WorldContext C)
  context_remove_component w ctx k e = defer_action w ctx e (Action.remove_component k e)

  abbrev pub context_destroy_entity :
      StaticWorld C → WorldContext C → Entity → Option (WorldContext C)
  context_destroy_entity w ctx e = defer_action w ctx e (Action.destroy_entity e)

  -- `add_entity`.
  abbrev pub add_entity : StaticWorld C → Entity × StaticWorld C
  add_entity w = let made = World.add_entity w.world in (made.0, record w { world = made.1 })

  -- `remove_entity`: the components are removed from copies of the sets.
  unfoldable pub remove_entity : StaticWorld C → Entity → Option (StaticWorld C)
  remove_entity w e = World.remove_entity w.world e >>= λ world. some (record w { world = world })

  -- `remove_component` for `n` ids.
  unfoldable pub remove_component : ℕ → StaticWorld C → ℕ → Entity → StaticWorld C
  remove_component n w k e = with_set w k (remove n (w.components k) e)

  -- `add_component`.
  unfoldable pub add_component : ℕ → StaticWorld C → ℕ → Entity → C → Option (StaticWorld C)
  add_component n w k e c = insert n (w.components k) e c >>= λ s. some (with_set w k s)

  -- `get_component`, behind its assertion.
  abbrev pub present : Option C → Option C
  present c = c

  unfoldable pub get_component : ℕ → StaticWorld C → ℕ → Entity → Option C
  get_component n w k e = at n (w.components k) e >>= present

  -- An assignment to the component that a reference is to.
  unfoldable pub assign_component : ℕ → StaticWorld C → ℕ → Entity → C → Option (StaticWorld C)
  unfolding get_component
  assign_component n w k e c = get_component n w k e >>= λ old.
      let s = w.components k in
      some (with_set w k (record s { dense = set s.dense (s.sparse e.id) c }))

  module _ (n : ℕ) where
    -- The visitor of the deferred actions, and the loops of `run` over what was put off.
    unfoldable pub apply_action : StaticWorld C → Action C → Option (StaticWorld C)
    apply_action w (Action.add_component k e c) = add_component n w k e c
    apply_action w (Action.remove_component k e) = some (remove_component n w k e)
    apply_action w (Action.destroy_entity e) = remove_entity w e

    unfoldable pub apply_component : Entity → StaticWorld C → ℕ × C → Option (StaticWorld C)
    apply_component e w (k, c) = add_component n w k e c

    unfoldable pub apply_entity : StaticWorld C → DeferredEntity C → Option (StaticWorld C)
    apply_entity w d = for_each (apply_component d.entity) w d.components

    unfoldable pub apply_context : StaticWorld C → WorldContext C → Option (StaticWorld C)
    apply_context w ctx = for_each apply_entity w ctx.deferred_entities >>= λ w'.
        for_each apply_action w' ctx.deferred_actions

    -- A system that is submitted, by the executor that runs it at once.
    unfoldable pub run_system :
        System C → StaticWorld C → WorldContext C → Option (StaticWorld C × WorldContext C)
    run_system System.done w ctx = some (w, ctx)
    run_system (System.add_entity next) w ctx =
        let (e, w', ctx') = context_add_entity w ctx in run_system (next e) w' ctx'
    run_system (System.add_component k e c next) w ctx =
        context_add_component w ctx k e c >>= λ ctx'. run_system next w ctx'
    run_system (System.remove_component k e next) w ctx =
        context_remove_component w ctx k e >>= λ ctx'. run_system next w ctx'
    run_system (System.destroy_entity e next) w ctx =
        context_destroy_entity w ctx e >>= λ ctx'. run_system next w ctx'
    run_system (System.assign k e c next) w ctx =
        assign_component n w k e c >>= λ w'. run_system next w' ctx

    -- The systems of a layer, each with its own context.
    unfoldable pub run_systems :
        List (StaticWorld C → System C)
        → StaticWorld C
        → Option (StaticWorld C × List (WorldContext C))
    run_systems [] w = some (w, [])
    run_systems (system ∷ systems) w = run_system (system w) w new_context >>= λ ran.
        run_systems systems ran.0 >>= λ others. some (others.0, ran.1 ∷ others.1)

    unfoldable pub run_layer : StaticWorld C → Layer C → Option (StaticWorld C)
    run_layer w layer = run_systems layer.systems w >>= λ ran.
        layer.hook ran.0 >>= λ w'. for_each apply_context w' ran.1

    -- `run`.
    unfoldable pub run : StaticWorld C → List (Layer C) → Option (StaticWorld C)
    run w layers = for_each run_layer w layers
