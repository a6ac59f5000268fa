-- ===== src/Ecs/View/Visits.antt =====
-- Which entities the iterator of a view visits.
use libcsics.Base.{
  ℕ, zero, suc, ◌-◌, ◌^◌, ◌≤◌, ◌<◌, ◌≡◌, ◌≢◌, refl, sym, ap, ◌∙◌, inl, inr, Bool, true, false, ◌&&◌,
  not, ◌==◌, ltb, if◌then◌else◌, List, [], ◌∷◌, some, length, get_elem?, arith, All, ℕ-cases,
  Bool-cases, ne→not-==, ==_refl, lt→ltb,
}
use mathlib.Core.Option.{some-injective}
use libcsics.Ecs.SparseSet.{Entity, SparseSet, absent, contains}
use libcsics.Ecs.SparseSet.Invariant.{IsSparseSet}
use libcsics.Ecs.World.Invariant.{live}
use libcsics.Ecs.View.{
  stop_at, and_later, smaller, find_smallest, all_contain, skip_to_next, visited_from, visited,
}

pub live-none :
    (es : List Entity) (id : ℕ)
    → ((j : ℕ) (x : Entity) → get_elem? es j ≡ some x → x.id ≢ id)
    → live es id ≡ 0
live-none [] id other = refl
live-none (x ∷ es) id other =
    let rest = live-none es id (λ j y at. other (suc j) y at) in
    rw (ne→not-== x.id id (other 0 x refl)) (omega (arith, rest))

-- One entity of the id, and no other.
live-found :
    (es : List Entity) (id i : ℕ) (e : Entity)
    → get_elem? es i ≡ some e
    → e.id ≡ id
    → ((j : ℕ) (x : Entity) → get_elem? es j ≡ some x → x.id ≡ id → j ≡ i)
    → live es id ≡ 1
live-found [] id i e at same unique = cc
live-found (x ∷ es) id zero e at same unique =
    let head : x.id ≡ id = ap (λ (y : Entity). y.id) (some-injective x e at) ∙ same in
    let rest = live-none es id (λ j y at' eq. let no = unique (suc j) y at' eq in omega arith) in
    rw (head, ==_refl id) (omega (arith, rest))
live-found (x ∷ es) id (suc i) e at same unique = elim (ℕ-cases x.id id) [
  | inl eq ↦ let no = unique 0 x refl eq in absurd (omega arith)
  | inr ne ↦
      let rest =
        live-found es id i e at same
          (λ j y at' eq. let yes = unique (suc j) y at' eq in omega arith) in
      rw (ne→not-== x.id id ne) (omega (arith, rest))
]

abbrev pub AllBelow : ℕ → List Entity → Type 0
AllBelow n es = All (λ (e : Entity). e.id < n) es

pub all_below :
    (n : ℕ) (es : List Entity)
    → ((j : ℕ) (x : Entity) → get_elem? es j ≡ some x → x.id < n)
    → AllBelow n es
all_below n [] each = tt
all_below n (x ∷ es) each = (each 0 x refl, all_below n es (λ j y at. each (suc j) y at))

module _ {ℓ} {C : Type ℓ} where
  -- The set has a component of the id; all sets have.
  abbrev pub has : SparseSet C → ℕ → Bool
  has s id = not (s.sparse id == absent)

  abbrev pub has_all : List (SparseSet C) → ℕ → Bool
  has_all [] id = true
  has_all (s ∷ ss) id = has s id && has_all ss id

  abbrev kept : List (SparseSet C) → List Entity → List Entity
  kept ss [] = []
  kept ss (e ∷ es) = let rest = kept ss es in if has_all ss e.id then e ∷ rest else rest

  all_contain-has_all :
      (n : ℕ) (ss : List (SparseSet C)) (e : Entity)
      → e.id < n
      → all_contain n ss e ≡ some (has_all ss e.id)
  unfolding contains
  all_contain-has_all n [] e small = refl
  all_contain-has_all n (s ∷ ss) e small = elim (Bool-cases (s.sparse e.id == absent)) [
    | inl none_here ↦ rw (lt→ltb e.id n small, none_here) refl
    | inr some_here ↦ rw (lt→ltb e.id n small, some_here) (all_contain-has_all n ss e small)
  ]

  skip_to_next-here :
      (n : ℕ) (ss : List (SparseSet C)) (e : Entity) (es : List Entity)
      → e.id < n
      → has_all ss e.id ≡ true
      → skip_to_next n ss (e ∷ es) ≡ some (e ∷ es)
  unfolding skip_to_next
  skip_to_next-here n ss e es below here =
      ap (λ o. stop_at o (e ∷ es) (skip_to_next n ss es))
        (all_contain-has_all n ss e below ∙ ap some here)

  skip_to_next-over :
      (n : ℕ) (ss : List (SparseSet C)) (e : Entity) (es : List Entity)
      → e.id < n
      → has_all ss e.id ≡ false
      → skip_to_next n ss (e ∷ es) ≡ skip_to_next n ss es
  unfolding skip_to_next
  skip_to_next-over n ss e es below lacks =
      ap (λ o. stop_at o (e ∷ es) (skip_to_next n ss es))
        (all_contain-has_all n ss e below ∙ ap some lacks)

  visited_from-kept :
      (n fuel : ℕ) (ss : List (SparseSet C)) (es : List Entity)
      → AllBelow n es
      → length es ≤ fuel
      → visited_from n fuel ss (skip_to_next n ss es) ≡ some (kept ss es)
  unfolding visited_from skip_to_next
  visited_from-kept n zero ss [] small enough = refl
  visited_from-kept n (suc fuel) ss [] small enough = refl
  visited_from-kept n zero ss (e ∷ es) small enough = absurd (omega arith)
  visited_from-kept n (suc fuel) ss (e ∷ es) (below, small) enough =
      elim (Bool-cases (has_all ss e.id)) [
        | inl here ↦
            ap (visited_from n (suc fuel) ss) (skip_to_next-here n ss e es below here)
            ∙ ap (and_later e) (visited_from-kept n fuel ss es small (omega arith))
            ∙ rw here refl
        | inr lacks ↦
            ap (visited_from n (suc fuel) ss) (skip_to_next-over n ss e es below lacks)
            ∙ rw lacks (visited_from-kept n (suc fuel) ss es small (omega arith))
      ]

  different :
      (ss : List (SparseSet C)) (i id : ℕ) → has_all ss i ≡ false → has_all ss id ≡ true → i ≢ id
  different ss i id lacks have same =
      let both : false ≡ true = sym lacks ∙ ap (has_all ss) same ∙ have in cc

  live-kept :
      (ss : List (SparseSet C)) (es : List Entity) (id : ℕ)
      → live (kept ss es) id ≡ (if has_all ss id then live es id else 0)
  live-kept ss [] id = ground arith
  live-kept ss (e ∷ es) id =
      let rest = live-kept ss es id in
      elim (Bool-cases (has_all ss id)) [
        | inl all_have ↦
            let same_rest : live (kept ss es) id ≡ live es id = rw all_have at rest in
            elim (Bool-cases (has_all ss e.id)) [
              | inl here ↦ rw (here, all_have) (omega (arith, same_rest))
              | inr not_here ↦
                  let skipped = ne→not-== e.id id (different ss e.id id not_here all_have) in
                  rw (not_here, all_have, skipped) (omega (arith, same_rest))
            ]
        | inr one_lacks ↦
            let no_rest : live (kept ss es) id ≡ 0 = rw one_lacks at rest in
            elim (Bool-cases (has_all ss e.id)) [
              | inl here ↦
                  let skipped =
                    ne→not-== e.id id (λ same. different ss id e.id one_lacks here (sym same)) in
                  rw (here, one_lacks, skipped) (omega (arith, no_rest))
              | inr not_here ↦ rw (not_here, one_lacks) no_rest
            ]
      ]

  -- The entities of a well-formed set, by id.
  pub live-IsSparseSet :
      (n : ℕ) (s : SparseSet C) (id : ℕ)
      → IsSparseSet n s
      → id < n
      → has s id ≡ true
      → live s.entities id ≡ 1
  live-IsSparseSet n s id h small here =
      let present : s.sparse id ≢ absent = ground arith in
      let f = h.found id small present in
      live-found s.entities id (s.sparse id) f.owner f.there f.same
        (λ j x at eq. sym (h.placed j x at).1 ∙ ap s.sparse eq)

  -- What holds of the entities of each set holds of those of the smallest.
  smaller-of_each :
      (P : List Entity → Type 0) (ss : List (SparseSet C)) (smallest : ℕ) (es : List Entity)
      → P es
      → All (λ (s : SparseSet C). P s.entities) ss
      → P (smaller ss smallest es)
  smaller-of_each P [] smallest es here each = here
  smaller-of_each P (s ∷ ss) smallest es here (one, each) =
      elim (Bool-cases (ltb (length s.dense) smallest)) [
        | inl less ↦ rw less (smaller-of_each P ss (length s.dense) s.entities one each)
        | inr more ↦ rw more (smaller-of_each P ss smallest es here each)
      ]

  each_below :
      (n : ℕ) (ss : List (SparseSet C))
      → All (IsSparseSet n) ss
      → All (λ (s : SparseSet C). AllBelow n s.entities) ss
  each_below n [] h = tt
  each_below n (s ∷ ss) (one, h) =
      (all_below n s.entities (λ j x at. (one.placed j x at).0), each_below n ss h)

  each_live :
      (n : ℕ) (ss : List (SparseSet C)) (id : ℕ)
      → All (IsSparseSet n) ss
      → id < n
      → has_all ss id ≡ true
      → All (λ (s : SparseSet C). live s.entities id ≡ 1) ss
  each_live n [] id h small all_have = tt
  each_live n (s ∷ ss) id (one, h) small all_have =
      let first : has s id ≡ true = ground arith in
      let others : has_all ss id ≡ true = ground arith in
      (live-IsSparseSet n s id one small first, each_live n ss id h small others)

  -- The loop over a view of well-formed sets ends after one step for each entity of the smallest set at
  -- most, and visits each id below the capacity once if all of the sets have a component of it, and
  -- never otherwise.
  pub visited-has_all :
      (n fuel : ℕ) (s : SparseSet C) (ss : List (SparseSet C))
      → All (IsSparseSet n) (s ∷ ss)
      → length (find_smallest s ss) ≤ fuel
      → (es : List Entity) × (visited n fuel s ss ≡ some es)
        × ((id : ℕ) → id < n → live es id ≡ (if has_all (s ∷ ss) id then 1 else 0))
  unfolding visited find_smallest
  visited-has_all n fuel s ss h enough =
      let es = find_smallest s ss in
      let below =
        smaller-of_each (AllBelow n) (s ∷ ss) (2 ^ 64 - 1) s.entities (each_below n (s ∷ ss) h).0
          (each_below n (s ∷ ss) h) in
      (
        kept (s ∷ ss) es,
        visited_from-kept n fuel (s ∷ ss) es below enough,
        λ id small. live-kept (s ∷ ss) es id ∙ elim (Bool-cases (has_all (s ∷ ss) id)) [
          | inl all_have ↦
              let each = each_live n (s ∷ ss) id h small all_have in
              rw all_have (
                smaller-of_each (λ xs. live xs id ≡ 1) (s ∷ ss) (2 ^ 64 - 1) s.entities each.0 each)
          | inr one_lacks ↦ rw one_lacks refl
        ],
      )
