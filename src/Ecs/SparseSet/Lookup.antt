-- ===== src/Ecs/SparseSet/Lookup.antt =====
-- The set as a map from ids to components.
use libcsics.Base.{
  ℕ, ◌+◌, ◌<◌, ◌≡◌, ◌≢◌, refl, sym, ap, ◌∙◌, inl, inr, Option, none, some, length, get_elem?, arith,
  ◌==◌, if◌then◌else◌, ℕ-cases, ne→not-==, ==_refl, lt→ltb,
}
use libcsics.Ecs.SparseSet.{
  Entity, SparseSet, absent, insert, update_same, update_other, get_elem?_lt, get_elem?-in_range,
  get_elem?-push_back_kept, get_elem?-push_back_end, get_elem?-set_same, get_elem?-set_other,
}
use libcsics.Ecs.SparseSet.Invariant.{
  IsSparseSet, inserted, inserted-IsSparseSet, replaced, replaced-IsSparseSet,
}
use mathlib.Core.Option.{some-injective}

module _ {ℓ} {C : Type ℓ} where
  -- The component that is stored for an id, of whatever generation.
  pub component_of : SparseSet C → ℕ → Option C
  component_of s id = if s.sparse id == absent then none else get_elem? s.dense (s.sparse id)

  -- The map with the entry of one id changed.
  abbrev pub put : (ℕ → Option C) → ℕ → Option C → ℕ → Option C
  put m i v id = if id == i then v else m id

  pub component_of-none :
      (s : SparseSet C) (id : ℕ) → s.sparse id ≡ absent → component_of s id ≡ none
  unfolding component_of
  component_of-none s id away = rw away

  pub component_of_at :
      (s : SparseSet C) (id i : ℕ)
      → s.sparse id ≡ i
      → i ≢ absent
      → component_of s id ≡ get_elem? s.dense i
  unfolding component_of
  component_of_at s id i there ne = rw (there, ne→not-== i absent ne)

  pub put_same : (m : ℕ → Option C) (i : ℕ) (v : Option C) → put m i v i ≡ v
  put_same m i v = rw (==_refl i)

  pub put_other : (m : ℕ → Option C) (i : ℕ) (v : Option C) (id : ℕ) → id ≢ i → put m i v id ≡ m id
  put_other m i v id ne = rw (ne→not-== id i ne)

  pub insert_new :
      (n : ℕ) (s : SparseSet C) (e : Entity) (c : C)
      → e.id < n
      → s.sparse e.id ≡ absent
      → insert n s e c ≡ some (inserted s e c)
  unfolding insert
  insert_new n s e c small new = rw (lt→ltb e.id n small, new)

  pub insert_again :
      (n : ℕ) (s : SparseSet C) (e : Entity) (c : C)
      → e.id < n
      → s.sparse e.id ≢ absent
      → insert n s e c ≡ some (replaced s e c)
  unfolding insert
  insert_again n s e c small here = rw (lt→ltb e.id n small, ne→not-== (s.sparse e.id) absent here)

  -- Both sides are found at one index of the dense part.
  pub entry :
      (s s' : SparseSet C) (id i j : ℕ)
      → s'.sparse id ≡ j
      → s.sparse id ≡ i
      → j ≢ absent
      → i ≢ absent
      → get_elem? s'.dense j ≡ get_elem? s.dense i
      → component_of s' id ≡ component_of s id
  entry s s' id i j there here nj ni same =
      component_of_at s' id j there nj ∙ same ∙ sym (component_of_at s id i here ni)

  module _ (n : ℕ) (s : SparseSet C) (h : IsSparseSet n s) where
    pub index_lt : (id : ℕ) → id < n → s.sparse id ≢ absent → s.sparse id < length s.dense
    index_lt id lt here =
        let f = h.found id lt here in
        let range = get_elem?_lt s.entities (s.sparse id) f.owner f.there in
        omega (arith, h.same_length)

    pub index_apart :
        (a b : ℕ)
        → a < n
        → b < n
        → s.sparse a ≢ absent
        → s.sparse b ≢ absent
        → a ≢ b
        → s.sparse a ≢ s.sparse b
    index_apart a b la lb ha hb ne eq =
        let f = h.found a la ha in
        let g = h.found b lb hb in
        let one =
          some-injective f.owner g.owner (sym f.there ∙ ap (get_elem? s.entities) eq ∙ g.there) in
        ne (sym f.same ∙ ap (λ (z : Entity). z.id) one ∙ g.same)

    inserted_entries :
        (e : Entity) (c : C) (id : ℕ)
        → id < n
        → component_of (inserted s e c) id ≡ put (component_of s) e.id (some c) id
    inserted_entries e c id lt = elim (ℕ-cases id e.id) [
      | inl eq ↦ rw eq (
          component_of_at (inserted s e c) e.id (length s.dense)
            (update_same s.sparse e.id (length s.dense)) (let few = h.few in omega arith)
          ∙ get_elem?-push_back_end s.dense c
          ∙ sym (put_same (component_of s) e.id (some c)))
      | inr other ↦
          let keep = update_other s.sparse e.id (length s.dense) id other in
          elim (ℕ-cases (s.sparse id) absent) [
            | inl away ↦
                component_of-none (inserted s e c) id (keep ∙ away)
                ∙ sym (component_of-none s id away)
                ∙ sym (put_other (component_of s) e.id (some c) id other)
            | inr here ↦
                let (v, there) = get_elem?-in_range s.dense (s.sparse id) (index_lt id lt here) in
                entry s (inserted s e c) id (s.sparse id) (s.sparse id) keep refl here here
                  (get_elem?-push_back_kept s.dense (s.sparse id) v c there ∙ sym there)
                ∙ sym (put_other (component_of s) e.id (some c) id other)
          ]
    ]

    replaced_entries :
        (e : Entity) (c : C) (id : ℕ)
        → e.id < n
        → s.sparse e.id ≢ absent
        → id < n
        → component_of (replaced s e c) id ≡ put (component_of s) e.id (some c) id
    replaced_entries e c id small held lt = elim (ℕ-cases id e.id) [
      | inl eq ↦ rw eq (
          component_of_at (replaced s e c) e.id (s.sparse e.id) refl held
          ∙ get_elem?-set_same s.dense (s.sparse e.id) c (index_lt e.id small held)
          ∙ sym (put_same (component_of s) e.id (some c)))
      | inr other ↦ elim (ℕ-cases (s.sparse id) absent) [
        | inl away ↦
            component_of-none (replaced s e c) id away
            ∙ sym (component_of-none s id away)
            ∙ sym (put_other (component_of s) e.id (some c) id other)
        | inr here ↦
            entry s (replaced s e c) id (s.sparse id) (s.sparse id) refl refl here here (
              get_elem?-set_other s.dense (s.sparse e.id) (s.sparse id) c
                (index_apart id e.id lt small here held other))
            ∙ sym (put_other (component_of s) e.id (some c) id other)
      ]
    ]

  -- Inserting a component for an entity whose id is below the capacity succeeds unless the dense
  -- part is as long as a `size_t` can count. The set stays well formed, and of all ids below the
  -- capacity only the entity's own has another component: the one that was inserted.
  pub insert-put :
      (n : ℕ) (s : SparseSet C) (e : Entity) (c : C)
      → IsSparseSet n s
      → e.id < n
      → length s.dense + 1 < absent
      → (s' : SparseSet C) × (insert n s e c ≡ some s')
        × IsSparseSet n s'
        × ((id : ℕ) → id < n → component_of s' id ≡ put (component_of s) e.id (some c) id)
  insert-put n s e c h small room = elim (ℕ-cases (s.sparse e.id) absent) [
    | inl new ↦ (
      inserted s e c,
      insert_new n s e c small new,
      inserted-IsSparseSet n s e h c small new room,
      inserted_entries n s h e c,
    )
    | inr held ↦ (
      replaced s e c,
      insert_again n s e c small held,
      replaced-IsSparseSet n s e h c,
      λ id. replaced_entries n s h e c id small held,
    )
  ]
