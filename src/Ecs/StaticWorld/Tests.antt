-- ===== src/Ecs/StaticWorld/Tests.antt =====
-- The theorems on worlds at a concrete world of numbers, with a capacity of eight ids.
use libcsics.Base.{ℕ, ◌≡◌, refl, [], ◌∷◌, ◌++◌, Option, none, some, arith}
use libcsics.Ecs.SparseSet.{Entity, empty_set, insert, at}
use libcsics.Ecs.SparseSet.Invariant.{empty_set-IsSparseSet}
use libcsics.Ecs.World
use libcsics.Ecs.World.Invariant.{IsWorld}
use libcsics.Ecs.StaticWorld.{
  StaticWorld, Action, WorldContext, System, Layer, for_each, add_entity, add_component,
  remove_entity, get_component, apply_context, run, run_layer, run_systems, run_system,
  context_add_component, apply_entity, apply_component,
}
use libcsics.Ecs.StaticWorld.Model.{model_context, IsStaticWorld, Both, model_of, model_of-Agree}
use libcsics.Ecs.StaticWorld.Deferred.{contexts-Agree}
use libcsics.Ecs.StaticWorld.Dead.{Destroys, destroyed_twice}
use libcsics.Ecs.StaticWorld.Runs.{IfSome, Kept, run-Kept}
use libcsics.Ecs.StaticWorld.Reborn.{get_component-reborn}

abbrev player : Entity
player = record { id = 0; generation = 0 }

abbrev game : StaticWorld ℕ
game = record {
  world = record { entities = player ∷ []; dead_entities = []; generations = 0 ∷ [] };
  components = λ k. empty_set;
}

game-IsWorld : IsWorld game.world
game-IsWorld = record {
  counted = refl;
  once = λ id lt. ground arith;
  none_beyond = λ id le. ground arith;
}

game-IsStaticWorld : IsStaticWorld 8 game
game-IsStaticWorld = record { ids = game-IsWorld; sets = λ k. empty_set-IsSparseSet 8 }

-- A context that gives the player a component and then destroys it.
abbrev farewell : WorldContext ℕ
farewell = record {
  deferred_actions = Action.add_component 1 player 7 ∷ Action.destroy_entity player ∷ [];
  deferred_entities = [];
}

contexts-Agree_example :
    Both 8
      (for_each (apply_context 8) game (farewell ∷ []))
      (for_each (model_context 8) (model_of game) (farewell ∷ []))
contexts-Agree_example =
    contexts-Agree 8 (omega arith) (farewell ∷ []) game (model_of game)
      (model_of-Agree 8 game game-IsStaticWorld)

farewell-Destroys : Destroys 8 0 farewell
farewell-Destroys = record {
  entity = player;
  same = refl;
  before = Action.add_component 1 player 7 ∷ [];
  behind = [];
  there = refl;
}

destroyed_twice_example :
    for_each (apply_context 8) game ([] ++ (farewell ∷ ([] ++ (farewell ∷ [])))) ≡ none
destroyed_twice_example =
    destroyed_twice 8 0 game [] [] [] farewell farewell (omega arith) game-IsStaticWorld
      farewell-Destroys farewell-Destroys

-- A layer with a system that makes an entity with a component.
abbrev spawning : Layer ℕ
spawning = record {
  systems = (λ w. System.add_entity (λ e. System.add_component 2 e 9 System.done)) ∷ [];
  hook = λ w. some w;
}

run-Kept_example : IfSome (Kept 8) (run 8 game (spawning ∷ []))
run-Kept_example =
    run-Kept 8 (omega arith) (spawning ∷ []) game ((λ w h. h), tt) (λ few. game-IsStaticWorld)

get_component-reborn_example :
    (w' : StaticWorld ℕ) × (w'' : StaticWorld ℕ) × (add_component 8
        (add_entity game).1
        3
        (add_entity game).0
        5
      ≡ some w')
    × (remove_entity w' (add_entity game).0 ≡ some w'')
    × (get_component 8 (add_entity w'').1 3 (add_entity w'').0 ≡ some 5)
get_component-reborn_example =
    get_component-reborn 8 3 game 5 game-IsStaticWorld (omega arith) refl (omega arith) refl

-- The entity that a system makes has its component behind the layer.
abbrev component_after : Option (StaticWorld ℕ) → Option ℕ
component_after none = none
component_after (some w) = get_component 8 w 2 (record { id = 1; generation = 0 })

spawned : component_after (run 8 game (spawning ∷ [])) ≡ some 9
unfolding run get_component for_each run_layer run_systems run_system context_add_component
    World.add_entity apply_context apply_entity apply_component add_component insert at
spawned = refl
