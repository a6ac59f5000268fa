-- ===== src/Ecs/StaticWorld/Room.antt =====
-- A well-formed set has room: it holds one component for each id at most.
use libcsics.Base.{
  ℕ, zero, suc, ◌+◌, ◌≤◌, ◌<◌, ◌≡◌, refl, sym, ap, ◌∙◌, inl, inr, List, [], ◌∷◌, length,
  get_elem?_lt, arith, ℕ-cases, ==_refl, ne→not-==, ◌==◌, if◌then◌else◌, Bool-cases, false,
}
use libcsics.Ecs.SparseSet.{Entity, SparseSet, absent}
use libcsics.Ecs.SparseSet.Invariant.{IsSparseSet}
use libcsics.Ecs.World.Invariant.{live}
use libcsics.Ecs.View.Visits.{AllBelow, all_below, has, live-none, live-IsSparseSet}

-- How many entities have an id below `n`.
live_below : ℕ → List Entity → ℕ
live_below zero es = 0
live_below (suc n) es = live_below n es + live es n

abbrev first : ℕ → ℕ → ℕ
first zero id = 0
first (suc n) id = first n id + (if id == n then 1 else 0)

first_beyond : (n id : ℕ) → n ≤ id → first n id ≡ 0
first_beyond zero id h = refl
first_beyond (suc n) id h =
    rw (ne→not-== id n (λ e. omega arith)) (omega (arith, first_beyond n id (omega arith)))

first_below : (n id : ℕ) → id < n → first n id ≡ 1
first_below zero id h = absurd (omega arith)
first_below (suc n) id h = elim (ℕ-cases id n) [
  | inl eq ↦ rw (eq, ==_refl n) (omega (arith, first_beyond n n (omega arith)))
  | inr ne ↦ rw (ne→not-== id n ne) (omega (arith, first_below n id (omega arith)))
]

live_below-cons :
    (n : ℕ) (e : Entity) (es : List Entity) → live_below n (e ∷ es) ≡ first n e.id + live_below n es
unfolding live_below
live_below-cons zero e es = omega arith
live_below-cons (suc n) e es = omega (arith, live_below-cons n e es)

live_below-nil : (n : ℕ) → live_below n [] ≡ 0
unfolding live_below
live_below-nil zero = refl
live_below-nil (suc n) = omega (arith, live_below-nil n)

live_below-length : (n : ℕ) (es : List Entity) → AllBelow n es → live_below n es ≡ length es
live_below-length n [] small = live_below-nil n
live_below-length n (e ∷ es) (below, small) =
    omega (arith, live_below-cons n e es, first_below n e.id below, live_below-length n es small)

live_below-le :
    (n m : ℕ) (es : List Entity)
    → ((id : ℕ) → id < n → live es id ≤ 1)
    → m ≤ n
    → live_below m es ≤ m
unfolding live_below
live_below-le n zero es once le = omega arith
live_below-le n (suc m) es once le =
    omega (arith, once m (omega arith), live_below-le n m es once (omega arith))

module _ {ℓ} {C : Type ℓ} (n : ℕ) (s : SparseSet C) (h : IsSparseSet n s) where
  live-absent : (id : ℕ) → has s id ≡ false → live s.entities id ≡ 0
  live-absent id lacks = live-none s.entities id λ j x at same.
      let away : s.sparse id ≡ absent = ground arith in
      let here = sym (h.placed j x at).1 ∙ ap s.sparse same ∙ away in
      let range = get_elem?_lt s.entities j x at in
      let few = h.few in let lengths = h.same_length in absurd (omega arith)

  live-le : (id : ℕ) → id < n → live s.entities id ≤ 1
  live-le id small = elim (Bool-cases (has s id)) [
    | inl here ↦ omega (arith, live-IsSparseSet n s id h small here)
    | inr lacks ↦ omega (arith, live-absent id lacks)
  ]

  pub length-le : length s.dense ≤ n
  length-le = omega (
    arith,
    h.same_length,
    live_below-length n s.entities (all_below n s.entities (λ j x at. (h.placed j x at).0)),
    live_below-le n n s.entities live-le (omega arith),
  )
