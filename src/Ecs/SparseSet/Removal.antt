-- ===== src/Ecs/SparseSet/Removal.antt =====
-- The set after `remove` moved its last component to the removed place.
use libcsics.Base.{
  ℕ, suc, ◌-◌, ◌<◌, ◌≡◌, ◌≢◌, sym, ap, ◌∙◌, inl, inr, List, some, length, get_elem?, set, arith,
  ℕ-cases, length-set,
}
use libcsics.Ecs.SparseSet.{
  Entity, SparseSet, absent, update, update_same, update_other, pop_back, length-pop_back,
  get_elem?_lt, get_elem?-pop_back-set, get_elem?-pop_back-set_same,
}
use libcsics.Ecs.SparseSet.Invariant.{Has, IsSparseSet}
use mathlib.Core.Option.{some-injective}

module _ {ℓ} {C : Type ℓ} (s : SparseSet C) (e x : Entity) where
  -- The index table and the entities after the move.
  abbrev pub table : ℕ → ℕ
  table = update (update s.sparse x.id (s.sparse e.id)) e.id absent

  abbrev pub kept : List Entity
  kept = pop_back (set s.entities (s.sparse e.id) x)

module _ {ℓ} {C : Type ℓ} (n : ℕ) (s : SparseSet C) (e : Entity) (h : IsSparseSet n s)
    (small : e.id < n) (here : s.sparse e.id ≢ absent) (x : Entity)
    (last : get_elem? s.entities (length s.entities - 1) ≡ some x) where
  pub in_range : s.sparse e.id < length s.entities
  in_range =
      let f = h.found e.id small here in get_elem?_lt s.entities (s.sparse e.id) f.owner f.there

  pub last_index : s.sparse x.id ≡ length s.entities - 1
  last_index = (h.placed (length s.entities - 1) x last).1

  -- Two entities with one index have one id.
  pub one_id :
      (y : Entity) (i : ℕ) → get_elem? s.entities i ≡ some y → s.sparse e.id ≡ i → y.id ≡ e.id
  one_id y i at eq =
      let f = h.found e.id small here in
      let same = some-injective f.owner y (sym f.there ∙ ap (get_elem? s.entities) eq ∙ at) in
      ap (λ (z : Entity). z.id) (sym same) ∙ f.same

  pub table_removed : (table s e x) e.id ≡ absent
  table_removed = update_same (update s.sparse x.id (s.sparse e.id)) e.id absent

  pub table_moved : x.id ≢ e.id → (table s e x) x.id ≡ s.sparse e.id
  table_moved ne =
      update_other (update s.sparse x.id (s.sparse e.id)) e.id absent x.id ne
      ∙ update_same s.sparse x.id (s.sparse e.id)

  pub table_other : (id : ℕ) → id ≢ e.id → id ≢ x.id → (table s e x) id ≡ s.sparse id
  table_other id ne nx =
      update_other (update s.sparse x.id (s.sparse e.id)) e.id absent id ne
      ∙ update_other s.sparse x.id (s.sparse e.id) id nx

  -- The removed place, unless it is the last, is inside what is (kept s e x).
  pub before_last : x.id ≢ e.id → suc (s.sparse e.id) < length s.entities
  before_last ne = elim (ℕ-cases (s.sparse e.id) (length s.entities - 1)) [
    | inl eq ↦ absurd (ne (one_id x (length s.entities - 1) last eq))
    | inr other ↦ let r = in_range in omega arith
  ]

  kept_range : (j : ℕ) (y : Entity) → get_elem? (kept s e x) j ≡ some y → suc j < length s.entities
  kept_range j y at = omega (
    arith,
    get_elem?_lt (kept s e x) j y at,
    length-pop_back (set s.entities (s.sparse e.id) x),
    length-set s.entities (s.sparse e.id) x,
  )

  pub kept_placed :
      (j : ℕ) (y : Entity)
      → get_elem? (kept s e x) j ≡ some y
      → (y.id < n) × ((table s e x) y.id ≡ j)
  kept_placed j y at = elim (ℕ-cases j (s.sparse e.id)) [
    | inl eq ↦
        let range = kept_range j y at in
        let same = some-injective x y (
          sym (get_elem?-pop_back-set_same s.entities (s.sparse e.id) x (omega arith))
          ∙ ap (get_elem? (kept s e x)) (sym eq)
          ∙ at) in
        let moved_id : y.id ≡ x.id = ap (λ (z : Entity). z.id) (sym same) in
        (
          omega (arith, (h.placed (length s.entities - 1) x last).0),
          ap (table s e x) moved_id
              ∙ table_moved
                  (λ bad. let l = last_index in let same_index = ap s.sparse bad in omega arith)
              ∙ sym eq,
        )
    | inr other ↦
        let range = kept_range j y at in
        let old = sym (get_elem?-pop_back-set s.entities (s.sparse e.id) j x other range) ∙ at in
        let (lt, back) = h.placed j y old in
        (
          lt,
          table_other y.id (λ bad. other (sym back ∙ ap s.sparse bad))
                (λ bad. let l = last_index in let same_index = ap s.sparse bad in omega arith)
              ∙ back,
        )
  ]

  -- An entity that is not the last one stands before it.
  pub not_last :
      (id : ℕ) → Has s.entities (s.sparse id) id → id ≢ x.id → suc (s.sparse id) < length s.entities
  not_last id old ne = elim (ℕ-cases (s.sparse id) (length s.entities - 1)) [
    | inl eq ↦
        let same =
          some-injective old.owner x (sym old.there ∙ ap (get_elem? s.entities) eq ∙ last) in
        absurd (ne (sym old.same ∙ ap (λ (z : Entity). z.id) same))
    | inr other ↦
        let range = get_elem?_lt s.entities (s.sparse id) old.owner old.there in omega arith
  ]

  pub kept_found :
      (id : ℕ) → id < n → (table s e x) id ≢ absent → Has (kept s e x) ((table s e x) id) id
  kept_found id lt ne = elim (ℕ-cases id e.id) [
    | inl eq ↦ absurd (ne (ap (table s e x) eq ∙ table_removed))
    | inr not_removed ↦ elim (ℕ-cases id x.id) [
      | inl eq ↦
          let apart : x.id ≢ e.id = λ bad. not_removed (eq ∙ bad) in
          let moved = ap (table s e x) eq ∙ table_moved apart in
          record {
            owner = x;
            there =
                ap (get_elem? (kept s e x)) moved
                ∙ get_elem?-pop_back-set_same s.entities (s.sparse e.id) x (before_last apart);
            same = sym eq;
          }
      | inr not_moved ↦
          let same_place = table_other id not_removed not_moved in
          let old = h.found id lt (λ away. ne (same_place ∙ away)) in
          record {
            owner = old.owner;
            there =
                ap (get_elem? (kept s e x)) same_place
                ∙ get_elem?-pop_back-set s.entities (s.sparse e.id) (s.sparse id) x
                    (λ bad.
                      not_removed
                        (sym old.same ∙ one_id old.owner (s.sparse id) old.there (sym bad)))
                    (not_last id old not_moved)
                ∙ old.there;
            same = old.same;
          }
    ]
  ]
