-- ===== src/Ecs/StaticWorld/Dead.antt =====
-- Entities that the contexts of one layer destroy.
use libcsics.Base.{
  ℕ, ◌^◌, ◌<◌, ◌≡◌, refl, sym, ap, ◌∙◌, inl, inr, false, Bool-cases, List, [], ◌∷◌, ◌++◌, Option,
  none, some, Option-cases, ltb, ℕ-cases, ==_refl, ne→not-==,
}
use libcsics.Ecs.SparseSet.{Entity}
use libcsics.Ecs.StaticWorld.{
  StaticWorld, Action, DeferredEntity, WorldContext, ◌>>=◌, for_each, apply_context,
}
use libcsics.Ecs.StaticWorld.Model.{
  Model, model_action, model_component, model_entity, model_context, IsStaticWorld, model_of,
  model_of-Agree, Both, fails, succeeds,
}
use libcsics.Ecs.StaticWorld.Deferred.{contexts-Agree}

for_each-append {ℓ κ} :
    {S : Type ℓ} {A : Type κ} (f : S → A → Option S) (s : S) (xs ys : List A)
    → for_each f s (xs ++ ys) ≡ (for_each f s xs >>= λ s'. for_each f s' ys)
unfolding for_each
for_each-append f s [] ys = refl
for_each-append f s (x ∷ xs) ys = elim (Option-cases (f s x)) [
  | inl e ↦ rw e refl
  | inr (s', e) ↦ rw e (for_each-append f s' xs ys)
]

module _ {ℓ} {C : Type ℓ} (n id : ℕ) where
  -- A failure, or a model in which the id is not alive.
  abbrev Dead : Option (Model C) → Type 0
  Dead none = Unit
  Dead (some m) = m.alive id ≡ false

  Dead-kept :
      (o : Option (Model C)) (f : Model C → Option (Model C))
      → Dead o
      → ((m : Model C) → m.alive id ≡ false → Dead (f m))
      → Dead (o >>= f)
  Dead-kept none f gone keeps = tt
  Dead-kept (some m) f gone keeps = keeps m gone

  Dead-after :
      (o : Option (Model C)) (f : Model C → Option (Model C))
      → ((m : Model C) → Dead (f m))
      → Dead (o >>= f)
  Dead-after none f kills = tt
  Dead-after (some m) f kills = kills m

  Dead-none :
      (o : Option (Model C)) (f : Model C → Option (Model C))
      → Dead o
      → ((m : Model C) → m.alive id ≡ false → f m ≡ none)
      → (o >>= f) ≡ none
  Dead-none none f gone stops = refl
  Dead-none (some m) f gone stops = stops m gone

  none-after :
      (o : Option (Model C)) (f : Model C → Option (Model C))
      → ((m : Model C) → f m ≡ none)
      → (o >>= f) ≡ none
  none-after none f stops = refl
  none-after (some m) f stops = stops m

  Dead-for_each {κ} :
      {A : Type κ} (f : Model C → A → Option (Model C))
      → ((m : Model C) (a : A) → m.alive id ≡ false → Dead (f m a))
      → (xs : List A) (m : Model C) → m.alive id ≡ false
      → Dead (for_each f m xs)
  unfolding for_each
  Dead-for_each f keeps [] m gone = gone
  Dead-for_each f keeps (x ∷ xs) m gone =
      Dead-kept (f m x) (λ m'. for_each f m' xs) (keeps m x gone) (Dead-for_each f keeps xs)

  Dead-action : (m : Model C) (a : Action C) → m.alive id ≡ false → Dead (model_action n m a)
  Dead-action m (Action.add_component k e c) gone = elim (Bool-cases (ltb e.id n)) [
    | inl below ↦ rw below gone
    | inr out ↦ rw out tt
  ]
  Dead-action m (Action.remove_component k e) gone = gone
  Dead-action m (Action.destroy_entity e) gone = elim (Bool-cases (m.alive e.id)) [
    | inl here ↦ rw here (elim (ℕ-cases id e.id) [
      | inl eq ↦ rw (eq, ==_refl e.id) refl
      | inr ne ↦ rw (ne→not-== id e.id ne) gone
    ])
    | inr away ↦ rw away tt
  ]

  Dead-component :
      (e : Entity) (m : Model C) (c : ℕ × C) → m.alive id ≡ false → Dead (model_component n e m c)
  Dead-component e m (k, c) gone = elim (Bool-cases (ltb e.id n)) [
    | inl below ↦ rw below gone
    | inr out ↦ rw out tt
  ]

  Dead-entity :
      (m : Model C) (d : DeferredEntity C) → m.alive id ≡ false → Dead (model_entity n m d)
  unfolding model_entity
  Dead-entity m d =
      Dead-for_each (model_component n d.entity) (Dead-component d.entity) d.components m

  Dead-context :
      (m : Model C) (ctx : WorldContext C) → m.alive id ≡ false → Dead (model_context n m ctx)
  unfolding model_context
  Dead-context m ctx gone =
      Dead-kept (for_each (model_entity n) m ctx.deferred_entities)
        (λ m'. for_each (model_action n) m' ctx.deferred_actions)
        (Dead-for_each (model_entity n) Dead-entity ctx.deferred_entities m gone)
        (Dead-for_each (model_action n) Dead-action ctx.deferred_actions)

  -- Among what the context put off is the destruction of the entity with the id.
  pub record Destroys (ctx : WorldContext C) : Type ℓ where
    pub entity : Entity
    pub same : entity.id ≡ id
    pub before : List (Action C)
    pub behind : List (Action C)
    pub there : ctx.deferred_actions ≡ before ++ (Action.destroy_entity entity ∷ behind)

  module _ (e : Entity) (same : e.id ≡ id) (before behind : List (Action C)) where
    destroyed :
        (m : Model C) → Dead (for_each (model_action n) m (Action.destroy_entity e ∷ behind))
    unfolding for_each
    destroyed m =
        Dead-kept (model_action n m (Action.destroy_entity e))
          (λ m'. for_each (model_action n) m' behind)
          (elim (Bool-cases (m.alive e.id)) [
            | inl here ↦ rw (here, sym same, ==_refl e.id) refl
            | inr away ↦ rw away tt
          ])
          (Dead-for_each (model_action n) Dead-action behind)

    refused :
        (m : Model C)
        → m.alive id ≡ false
        → for_each (model_action n) m (Action.destroy_entity e ∷ behind) ≡ none
    unfolding for_each
    refused m gone = rw (ap m.alive same ∙ gone) refl

    kills :
        (m : Model C)
        → Dead (for_each (model_action n) m (before ++ (Action.destroy_entity e ∷ behind)))
    kills m = rw (for_each-append (model_action n) m before (Action.destroy_entity e ∷ behind)) (
        Dead-after (for_each (model_action n) m before)
          (λ m'. for_each (model_action n) m' (Action.destroy_entity e ∷ behind)) destroyed)

    stops :
        (m : Model C)
        → m.alive id ≡ false
        → for_each (model_action n) m (before ++ (Action.destroy_entity e ∷ behind)) ≡ none
    stops m gone =
        for_each-append (model_action n) m before (Action.destroy_entity e ∷ behind)
        ∙ Dead-none (for_each (model_action n) m before)
            (λ m'. for_each (model_action n) m' (Action.destroy_entity e ∷ behind))
            (Dead-for_each (model_action n) Dead-action before m gone) refused

  Dead-destroyed :
      (ctx : WorldContext C) → Destroys ctx → (m : Model C) → Dead (model_context n m ctx)
  unfolding model_context
  Dead-destroyed ctx d m =
      Dead-after (for_each (model_entity n) m ctx.deferred_entities)
        (λ m'. for_each (model_action n) m' ctx.deferred_actions)
        (λ m'. rw d.there (kills d.entity d.same d.before d.behind m'))

  destroyed_again :
      (ctx : WorldContext C)
      → Destroys ctx
      → (m : Model C) → m.alive id ≡ false
      → model_context n m ctx ≡ none
  unfolding model_context
  destroyed_again ctx d m gone =
      Dead-none (for_each (model_entity n) m ctx.deferred_entities)
        (λ m'. for_each (model_action n) m' ctx.deferred_actions)
        (Dead-for_each (model_entity n) Dead-entity ctx.deferred_entities m gone)
        (λ m' gone'. rw d.there (stops d.entity d.same d.before d.behind m' gone'))

  Both-none : (x : Option (StaticWorld C)) (y : Option (Model C)) → Both n x y → y ≡ none → x ≡ none
  Both-none x y fails e = refl
  Both-none x y (succeeds h) e = cc

  -- When two systems of a layer destroy the same entity, applying what the systems put off fails
  -- an assertion, whatever else they and the other systems put off.
  pub destroyed_twice :
      (w : StaticWorld C) (before between behind : List (WorldContext C))
      (one other : WorldContext C)
      → n < 2 ^ 63
      → IsStaticWorld n w
      → Destroys one
      → Destroys other
      → for_each (apply_context n) w (before ++ (one ∷ (between ++ (other ∷ behind)))) ≡ none
  unfolding for_each
  destroyed_twice w before between behind one other small h first second =
      let rest = one ∷ (between ++ (other ∷ behind)) in
      Both-none (for_each (apply_context n) w (before ++ rest))
        (for_each (model_context n) (model_of w) (before ++ rest))
        (contexts-Agree n small (before ++ rest) w (model_of w) (model_of-Agree n w h))
        (for_each-append (model_context n) (model_of w) before rest
          ∙ none-after (for_each (model_context n) (model_of w) before)
              (λ m. for_each (model_context n) m rest)
              (λ m.
                Dead-none (model_context n m one)
                  (λ m'. for_each (model_context n) m' (between ++ (other ∷ behind)))
                  (Dead-destroyed one first m)
                  (λ m' gone.
                    for_each-append (model_context n) m' between (other ∷ behind)
                    ∙ Dead-none (for_each (model_context n) m' between)
                        (λ m''. for_each (model_context n) m'' (other ∷ behind))
                        (Dead-for_each (model_context n) Dead-context between m' gone)
                        (λ m'' gone'. rw (destroyed_again other second m'' gone') refl))))
