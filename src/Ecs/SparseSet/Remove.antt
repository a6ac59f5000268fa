-- ===== src/Ecs/SparseSet/Remove.antt =====
-- `remove` against the map from ids to components.
use libcsics.Base.{
  ℕ, ◌-◌, ◌≤◌, ◌<◌, ◌≡◌, ◌≢◌, refl, sym, ap, ◌∙◌, inl, inr, none, some, length, get_elem?, set,
  arith, ℕ-cases, ne→not-==, lt→not-leb, le→leb, length-set, Bool-cases, not-ltb→le, ltb→lt, ltb,
}
use libcsics.Ecs.SparseSet.{
  Entity, SparseSet, absent, remove, move_last, pop_back, length-pop_back, get_elem?-in_range,
  get_elem?-pop_back-set, get_elem?-pop_back-set_same, update, update_same, update_other,
}
use libcsics.Ecs.SparseSet.Invariant.{IsSparseSet}
use libcsics.Ecs.SparseSet.Removal.{
  table, kept, last_index, table_removed, table_moved, table_other, before_last, kept_placed,
  kept_found, not_last,
}
use libcsics.Ecs.SparseSet.Lookup.{
  component_of, put, component_of-none, put_same, put_other, entry, index_lt, index_apart,
}

module _ {ℓ} {C : Type ℓ} where
  pub remove_last :
      (n : ℕ) (s : SparseSet C) (e : Entity) (c : C) (x : Entity)
      → e.id < n
      → s.sparse e.id ≢ absent
      → length s.dense ≢ 0
      → get_elem? s.dense (length s.dense - 1) ≡ some c
      → get_elem? s.entities (length s.entities - 1) ≡ some x
      → remove n s e ≡ move_last s e (some c) (some x)
  unfolding remove
  remove_last n s e c x small here filled last owner = rw (
    lt→not-leb n e.id small,
    ne→not-== (s.sparse e.id) absent here,
    ne→not-== (length s.dense) 0 filled,
    last,
    owner,
  )

  pub remove_out : (n : ℕ) (s : SparseSet C) (e : Entity) → n ≤ e.id → remove n s e ≡ s
  unfolding remove
  remove_out n s e out = rw (le→leb n e.id out)

  pub remove-absent :
      (n : ℕ) (s : SparseSet C) (e : Entity) → e.id < n → s.sparse e.id ≡ absent → remove n s e ≡ s
  unfolding remove
  remove-absent n s e small away = rw (lt→not-leb n e.id small, away)

  -- The set that the moves of `remove` leave.
  abbrev removed : SparseSet C → Entity → C → Entity → SparseSet C
  removed s e c x = record {
    dense = pop_back (set s.dense (s.sparse e.id) c);
    sparse = table s e x;
    entities = kept s e x;
  }

  -- The index of the removed entity is not changed by the move before it is used again.
  move_last-removed :
      (s : SparseSet C) (e : Entity) (c : C) (x : Entity)
      → move_last s e (some c) (some x) ≡ removed s e c x
  move_last-removed s e c x =
      ap
        (λ (i : ℕ). record {
          dense = pop_back (set s.dense (s.sparse e.id) c);
          sparse = table s e x;
          entities = pop_back (set s.entities i x);
        })
        (elim (ℕ-cases e.id x.id) [
          | inl eq ↦
              ap (update s.sparse x.id (s.sparse e.id)) eq
              ∙ update_same s.sparse x.id (s.sparse e.id)
          | inr ne ↦ update_other s.sparse x.id (s.sparse e.id) e.id ne
        ])

  module _ (n : ℕ) (s : SparseSet C) (e : Entity) (h : IsSparseSet n s) (small : e.id < n)
      (here : s.sparse e.id ≢ absent) (x : Entity)
      (last : get_elem? s.entities (length s.entities - 1) ≡ some x) (c : C)
      (last_component : get_elem? s.dense (length s.dense - 1) ≡ some c) where
    removed-IsSparseSet : IsSparseSet n (removed s e c x)
    removed-IsSparseSet = record {
      same_length = omega (
        arith,
        h.same_length,
        length-pop_back (set s.entities (s.sparse e.id) x),
        length-pop_back (set s.dense (s.sparse e.id) c),
        length-set s.entities (s.sparse e.id) x,
        length-set s.dense (s.sparse e.id) c,
      );
      few = omega (
        arith,
        h.few,
        length-pop_back (set s.dense (s.sparse e.id) c),
        length-set s.dense (s.sparse e.id) c,
      );
      placed = kept_placed n s e h small here x last;
      found = kept_found n s e h small here x last;
    }

    removed_entries :
        (id : ℕ) → id < n → component_of (removed s e c x) id ≡ put (component_of s) e.id none id
    removed_entries id lt = elim (ℕ-cases id e.id) [
      | inl eq ↦ rw eq (
          component_of-none (removed s e c x) e.id (table_removed n s e h small here x last)
          ∙ sym (put_same (component_of s) e.id none))
      | inr other ↦ elim (ℕ-cases id x.id) [
        | inl eq ↦
            let apart : x.id ≢ e.id = λ bad. other (eq ∙ bad) in
            let few = h.few in
            let lengths = h.same_length in
            let range = before_last n s e h small here x last apart in
            let last_at = last_index n s e h small here x last in
            entry s (removed s e c x) id (length s.dense - 1) (s.sparse e.id)
              (ap (table s e x) eq ∙ table_moved n s e h small here x last apart)
              (ap s.sparse eq ∙ omega arith) here (λ bad. omega arith)
              (get_elem?-pop_back-set_same s.dense (s.sparse e.id) c (omega arith)
                ∙ sym last_component)
            ∙ sym (put_other (component_of s) e.id none id other)
        | inr not_moved ↦ elim (ℕ-cases (s.sparse id) absent) [
          | inl away ↦
              component_of-none (removed s e c x) id
                (table_other n s e h small here x last id other not_moved ∙ away)
              ∙ sym (component_of-none s id away)
              ∙ sym (put_other (component_of s) e.id none id other)
          | inr held ↦
              let lengths = h.same_length in
              let range = not_last n s e h small here x last id (h.found id lt held) not_moved in
              entry s (removed s e c x) id (s.sparse id) (s.sparse id)
                (table_other n s e h small here x last id other not_moved) refl held held
                (get_elem?-pop_back-set s.dense (s.sparse e.id) (s.sparse id) c
                  (index_apart n s h id e.id lt small held here other) (omega arith))
              ∙ sym (put_other (component_of s) e.id none id other)
        ]
      ]
    ]

  -- What `remove` promises: a well-formed set in which only the entity's own id lost its component.
  pub record Removes (n : ℕ) (s : SparseSet C) (e : Entity) (s' : SparseSet C) : Type ℓ where
    pub valid : IsSparseSet n s'
    pub entries : (id : ℕ) → id < n → component_of s' id ≡ put (component_of s) e.id none id

  Removes-nothing :
      (n : ℕ) (s : SparseSet C) (e : Entity)
      → IsSparseSet n s
      → ((id : ℕ) → id < n → component_of s id ≡ put (component_of s) e.id none id)
      → remove n s e ≡ s
      → Removes n s e (remove n s e)
  Removes-nothing n s e h same unchanged = rw unchanged (record { valid = h; entries = same })

  remove_held :
      (n : ℕ) (s : SparseSet C) (e : Entity)
      → IsSparseSet n s
      → e.id < n
      → s.sparse e.id ≢ absent
      → Removes n s e (remove n s e)
  remove_held n s e h small here =
      let range = index_lt n s h e.id small here in
      let lengths = h.same_length in
      let (c, last_component) = get_elem?-in_range s.dense (length s.dense - 1) (omega arith) in
      let (x, last) = get_elem?-in_range s.entities (length s.entities - 1) (omega arith) in
      rw
        (remove_last n s e c x small here (λ bad. omega arith) last_component last
          ∙ move_last-removed s e c x)
        (record {
          valid = removed-IsSparseSet n s e h small here x last c last_component;
          entries = removed_entries n s e h small here x last c last_component;
        })

  -- Removing the component of any entity, with or without one, leaves a well-formed set, and of all
  -- ids below the capacity only the entity's own has lost its component.
  pub remove-Removes :
      (n : ℕ) (s : SparseSet C) (e : Entity) → IsSparseSet n s → Removes n s e (remove n s e)
  remove-Removes n s e h = elim (Bool-cases (ltb e.id n)) [
    | inr out ↦
        let beyond = not-ltb→le e.id n out in
        Removes-nothing n s e h
          (λ id lt. sym (put_other (component_of s) e.id none id (λ bad. omega arith)))
          (remove_out n s e beyond)
    | inl inside ↦
        let small = ltb→lt e.id n inside in
        elim (ℕ-cases (s.sparse e.id) absent) [
          | inl away ↦
              Removes-nothing n s e h
                (λ id lt. elim (ℕ-cases id e.id) [
                  | inl eq ↦
                      rw eq
                        (component_of-none s e.id away ∙ sym (put_same (component_of s) e.id none))
                  | inr ne ↦ sym (put_other (component_of s) e.id none id ne)
                ])
                (remove-absent n s e small away)
          | inr here ↦ remove_held n s e h small here
        ]
  ]
