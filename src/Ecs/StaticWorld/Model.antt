-- ===== src/Ecs/StaticWorld/Model.antt =====
-- What a world promises of the work that is put off: which ids are alive, and the component of each
-- type that each id has.
use libcsics.Base.{
  ℕ, ◌<◌, ◌≡◌, refl, inl, inr, Bool, false, List, [], ◌∷◌, Option, none, some, ltb, ◌==◌,
  if◌then◌else◌, ℕ-cases, ==_refl, ne→not-==,
}
use libcsics.Ecs.SparseSet.{Entity, SparseSet}
use libcsics.Ecs.SparseSet.Invariant.{IsSparseSet}
use libcsics.Ecs.SparseSet.Lookup.{component_of, put}
use libcsics.Ecs.World.{found}
use libcsics.Ecs.World.Invariant.{IsWorld}
use libcsics.Ecs.StaticWorld.{
  StaticWorld, Action, DeferredEntity, WorldContext, ◌>>=◌, for_each, with_set,
}

pub record Model {ℓ} (C : Type ℓ) : Type ℓ where
  pub alive : ℕ → Bool
  pub component : ℕ → ℕ → Option C

module _ {ℓ} {C : Type ℓ} where
  abbrev pub with_component : Model C → ℕ → ℕ → Option C → Model C
  with_component m k id c = record m {
    component = λ j. if j == k then put (m.component k) id c else m.component j;
  }

  -- An id that is not below the capacity can have no component, and one that is not alive cannot die.
  -- What died keeps its components.
  abbrev pub model_add : ℕ → Model C → ℕ → Entity → C → Option (Model C)
  model_add n m k e c = if ltb e.id n then some (with_component m k e.id (some c)) else none

  abbrev pub model_destroy : Model C → Entity → Option (Model C)
  model_destroy m e =
      if m.alive e.id
      then some (record m { alive = λ id. if id == e.id then false else m.alive id })
      else none

  module _ (n : ℕ) where
    abbrev pub model_action : Model C → Action C → Option (Model C)
    model_action m (Action.add_component k e c) = model_add n m k e c
    model_action m (Action.remove_component k e) = some (with_component m k e.id none)
    model_action m (Action.destroy_entity e) = model_destroy m e

    abbrev pub model_component : Entity → Model C → ℕ × C → Option (Model C)
    model_component e m (k, c) = model_add n m k e c

    unfoldable pub model_entity : Model C → DeferredEntity C → Option (Model C)
    model_entity m d = for_each (model_component d.entity) m d.components

    -- The components of new entities, and then the actions.
    unfoldable pub model_context : Model C → WorldContext C → Option (Model C)
    model_context m ctx = for_each model_entity m ctx.deferred_entities >>= λ m'.
        for_each model_action m' ctx.deferred_actions

  pub record IsStaticWorld (n : ℕ) (w : StaticWorld C) : Type ℓ where
    pub ids : IsWorld w.world
    pub sets : (k : ℕ) → IsSparseSet n (w.components k)

  pub with_set-IsStaticWorld :
      (n : ℕ) (w : StaticWorld C) (k : ℕ) (s : SparseSet C)
      → IsStaticWorld n w
      → IsSparseSet n s
      → IsStaticWorld n (with_set w k s)
  with_set-IsStaticWorld n w k s h one = record {
    ids = h.ids;
    sets = λ j. elim (ℕ-cases j k) [
      | inl eq ↦ rw (eq, ==_refl k) one
      | inr ne ↦ rw (ne→not-== j k ne) (h.sets j)
    ];
  }

  -- The world is well formed, and is what the model says.
  pub record Agree (n : ℕ) (w : StaticWorld C) (m : Model C) : Type ℓ where
    pub valid : IsStaticWorld n w
    pub living : (id : ℕ) → found w.world.entities id ≡ m.alive id
    pub entries : (k id : ℕ) → id < n → component_of (w.components k) id ≡ m.component k id

  abbrev pub model_of : StaticWorld C → Model C
  model_of w = record {
    alive = found w.world.entities;
    component = λ k. component_of (w.components k);
  }

  pub model_of-Agree : (n : ℕ) (w : StaticWorld C) → IsStaticWorld n w → Agree n w (model_of w)
  model_of-Agree n w h = record { valid = h; living = λ id. refl; entries = λ k id small. refl }

  -- Both fail, or both succeed and agree.
  pub data Both (n : ℕ) : Option (StaticWorld C) → Option (Model C) → Type ℓ where
    fails : Both n none none
    succeeds : {w : StaticWorld C} {m : Model C} → Agree n w m → Both n (some w) (some m)

  pub Both->>= :
      (n : ℕ) {x : Option (StaticWorld C)} {y : Option (Model C)}
      (f : StaticWorld C → Option (StaticWorld C)) (g : Model C → Option (Model C))
      → Both n x y
      → ((w : StaticWorld C) (m : Model C) → Agree n w m → Both n (f w) (g m))
      → Both n (x >>= f) (y >>= g)
  Both->>= n f g fails each = fails
  Both->>= n f g (succeeds {w} {m} h) each = each w m h

  pub Both-for_each {κ} :
      (n : ℕ) {A : Type κ} (f : StaticWorld C → A → Option (StaticWorld C))
      (g : Model C → A → Option (Model C))
      → ((a : A) (w : StaticWorld C) (m : Model C) → Agree n w m → Both n (f w a) (g m a))
      → (xs : List A) (w : StaticWorld C) (m : Model C) → Agree n w m
      → Both n (for_each f w xs) (for_each g m xs)
  unfolding for_each
  Both-for_each n f g each [] w m h = succeeds h
  Both-for_each n f g each (x ∷ xs) w m h =
      Both->>= n (λ w'. for_each f w' xs) (λ m'. for_each g m' xs) (each x w m h)
        (Both-for_each n f g each xs)
