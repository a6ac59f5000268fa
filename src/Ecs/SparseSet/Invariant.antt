-- ===== src/Ecs/SparseSet/Invariant.antt =====
-- The entities in the dense part and the index table point at each other, after every operation.
use libcsics.Base.{
  ℕ, ◌+◌, ◌<◌, ◌≡◌, ◌≢◌, refl, sym, ap, ◌∙◌, inl, inr, List, [], ◌∷◌, some, length, get_elem?, set,
  arith, ℕ-cases, length-append, length-set,
}
use libcsics.Ecs.SparseSet.{
  Entity, SparseSet, absent, empty_set, update, update_same, update_other, push_back, get_elem?_lt,
  get_elem?-push_back_kept, get_elem?-push_back_end, get_elem?-push_back,
}
use mathlib.Core.Option.{some-injective}

-- The entity of the id is at its index.
pub record Has (entities : List Entity) (index id : ℕ) : Type 0 where
  pub owner : Entity
  pub there : get_elem? entities index ≡ some owner
  pub same : owner.id ≡ id

pub record IsSparseSet {ℓ} {C : Type ℓ} (n : ℕ) (s : SparseSet C) : Type 0 where
  pub same_length : length s.entities ≡ length s.dense
  pub few : length s.dense < absent
  pub placed :
      (i : ℕ) (e : Entity) → get_elem? s.entities i ≡ some e → (e.id < n) × (s.sparse e.id ≡ i)
  pub found : (id : ℕ) → id < n → s.sparse id ≢ absent → Has s.entities (s.sparse id) id

module _ {ℓ} {C : Type ℓ} (s : SparseSet C) (e : Entity) where
  -- The set after `insert` of an entity that has no component yet.
  abbrev pub inserted : C → SparseSet C
  inserted c = record {
    dense = push_back s.dense c;
    sparse = update s.sparse e.id (length s.dense);
    entities = push_back s.entities e;
  }

  -- The set after `insert` of an entity that has a component.
  abbrev pub replaced : C → SparseSet C
  replaced c = record s { dense = set s.dense (s.sparse e.id) c }

module _ {ℓ} {C : Type ℓ} (n : ℕ) (s : SparseSet C) (e : Entity) (h : IsSparseSet n s) where
  inserted_placed :
      (c : C)
      → e.id < n
      → s.sparse e.id ≡ absent
      → (i : ℕ) (x : Entity) → get_elem? (push_back s.entities e) i ≡ some x
      → (x.id < n) × (update s.sparse e.id (length s.dense) x.id ≡ i)
  inserted_placed c small new i x at = elim (get_elem?-push_back s.entities i x e at) [
    | inl old ↦
        let (lt, back) = h.placed i x old in
        let range = get_elem?_lt s.entities i x old in
        (
          lt,
          update_other s.sparse e.id (length s.dense) x.id
                (λ same. let away = ap s.sparse same in let few = h.few in omega arith)
              ∙ back,
        )
    | inr (last, same) ↦
        let eq = some-injective e x same in
        let id_eq : x.id ≡ e.id = ap (λ (y : Entity). y.id) (sym eq) in
        (
          omega arith,
          ap (λ (k : ℕ). update s.sparse e.id (length s.dense) k) id_eq
              ∙ update_same s.sparse e.id (length s.dense)
              ∙ sym h.same_length
              ∙ sym last,
        )
  ]

  inserted_found :
      (c : C)
      → s.sparse e.id ≡ absent
      → (id : ℕ) → id < n
      → update s.sparse e.id (length s.dense) id ≢ absent
      → Has (push_back s.entities e) (update s.sparse e.id (length s.dense) id) id
  inserted_found c new id lt ne = elim (ℕ-cases id e.id) [
    | inl eq ↦ record {
      owner = e;
      there =
          ap (get_elem? (push_back s.entities e)) (
            ap (λ (k : ℕ). update s.sparse e.id (length s.dense) k) eq
            ∙ update_same s.sparse e.id (length s.dense)
            ∙ sym h.same_length)
          ∙ get_elem?-push_back_end s.entities e;
      same = sym eq;
    }
    | inr other ↦
        let keep = update_other s.sparse e.id (length s.dense) id other in
        let old = h.found id lt (λ away. ne (keep ∙ away)) in
        record {
          owner = old.owner;
          there =
              ap (get_elem? (push_back s.entities e)) keep
              ∙ get_elem?-push_back_kept s.entities (s.sparse id) old.owner e old.there;
          same = old.same;
        }
  ]

  pub inserted-IsSparseSet :
      (c : C)
      → e.id < n
      → s.sparse e.id ≡ absent
      → length s.dense + 1 < absent
      → IsSparseSet n (inserted s e c)
  inserted-IsSparseSet c small new room = record {
    same_length =
        omega
          (arith, length-append s.entities (e ∷ []), length-append s.dense (c ∷ []), h.same_length);
    few = omega (arith, length-append s.dense (c ∷ []));
    placed = inserted_placed c small new;
    found = inserted_found c new;
  }

  pub replaced-IsSparseSet : (c : C) → IsSparseSet n (replaced s e c)
  replaced-IsSparseSet c = record {
    same_length = omega (arith, length-set s.dense (s.sparse e.id) c, h.same_length);
    few = omega (arith, length-set s.dense (s.sparse e.id) c, h.few);
    placed = h.placed;
    found = h.found;
  }

module _ {ℓ} {C : Type ℓ} where
  pub empty_set-IsSparseSet : (n : ℕ) → IsSparseSet {C = C} n empty_set
  empty_set-IsSparseSet n = record {
    same_length = refl;
    few = omega arith;
    placed = λ i e at. cc;
    found = λ id lt ne. absurd (ne refl);
  }
