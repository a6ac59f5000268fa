-- ===== src/Ecs/SparseSet/Slots.antt =====
-- The operations of `Buffer` that the set uses, on lists, and of its index table.
pub use libcsics.Base.{get_elem?_lt, get_elem?-set_same, get_elem?-set_other}
use libcsics.Base.{
  ℕ, zero, suc, ◌-◌, ◌<◌, ◌≡◌, ◌≢◌, refl, ◌∙◌, List, [], ◌∷◌, ◌++◌, some, ◌==◌, if◌then◌else◌,
  length, get_elem?, set, arith, ◌⊎◌, inl, inr, ne→not-==, ==_refl, length-set,
}

abbrev pub update : (ℕ → ℕ) → ℕ → ℕ → ℕ → ℕ
update f i v j = if j == i then v else f j

pub update_same : (f : ℕ → ℕ) (i v : ℕ) → update f i v i ≡ v
update_same f i v = rw (==_refl i)

pub update_other : (f : ℕ → ℕ) (i v j : ℕ) → j ≢ i → update f i v j ≡ f j
update_other f i v j ne = rw (ne→not-== j i ne)

module _ {ℓ} {A : Type ℓ} where
  abbrev pub push_back : List A → A → List A
  push_back xs x = xs ++ (x ∷ [])

  abbrev pub pop_back : List A → List A
  pop_back [] = []
  pop_back (x ∷ []) = []
  pop_back (x ∷ y ∷ ys) = x ∷ pop_back (y ∷ ys)

  pub length-pop_back : (xs : List A) → length (pop_back xs) ≡ length xs - 1
  length-pop_back [] = omega arith
  length-pop_back (x ∷ []) = omega arith
  length-pop_back (x ∷ y ∷ ys) = omega (arith, length-pop_back (y ∷ ys))

  pub get_elem?-in_range :
      (xs : List A) (i : ℕ) → i < length xs → (x : A) × (get_elem? xs i ≡ some x)
  get_elem?-in_range [] i h = absurd (omega arith)
  get_elem?-in_range (y ∷ ys) zero h = (y, refl)
  get_elem?-in_range (y ∷ ys) (suc i) h = get_elem?-in_range ys i (omega arith)

  pub get_elem?-push_back_kept :
      (xs : List A) (i : ℕ) (x y : A)
      → get_elem? xs i ≡ some x
      → get_elem? (push_back xs y) i ≡ some x
  get_elem?-push_back_kept [] i x y e = cc
  get_elem?-push_back_kept (z ∷ zs) zero x y e = e
  get_elem?-push_back_kept (z ∷ zs) (suc i) x y e = get_elem?-push_back_kept zs i x y e

  pub get_elem?-push_back_end :
      (xs : List A) (y : A) → get_elem? (push_back xs y) (length xs) ≡ some y
  get_elem?-push_back_end [] y = refl
  get_elem?-push_back_end (z ∷ zs) y = get_elem?-push_back_end zs y

  pub get_elem?-push_back :
      (xs : List A) (i : ℕ) (x y : A)
      → get_elem? (push_back xs y) i ≡ some x
      → (get_elem? xs i ≡ some x) ⊎ ((i ≡ length xs) × (some y ≡ some x))
  get_elem?-push_back [] zero x y e = inr (omega arith, e)
  get_elem?-push_back [] (suc i) x y e = inl e
  get_elem?-push_back (z ∷ zs) zero x y e = inl e
  get_elem?-push_back (z ∷ zs) (suc i) x y e = elim (get_elem?-push_back zs i x y e) [
    | inl h ↦ inl h
    | inr (h, k) ↦ inr (omega arith, k)
  ]

  pub get_elem?-pop_back :
      (xs : List A) (i : ℕ) → suc i < length xs → get_elem? (pop_back xs) i ≡ get_elem? xs i
  get_elem?-pop_back [] i h = absurd (omega arith)
  get_elem?-pop_back (x ∷ []) i h = absurd (omega arith)
  get_elem?-pop_back (x ∷ y ∷ ys) zero h = refl
  get_elem?-pop_back (x ∷ y ∷ ys) (suc i) h = get_elem?-pop_back (y ∷ ys) i (omega arith)

  pub get_elem?-pop_back-set :
      (xs : List A) (i j : ℕ) (v : A)
      → j ≢ i
      → suc j < length xs
      → get_elem? (pop_back (set xs i v)) j ≡ get_elem? xs j
  get_elem?-pop_back-set xs i j v ne h =
      get_elem?-pop_back (set xs i v) j (omega (arith, length-set xs i v))
      ∙ get_elem?-set_other xs i j v ne

  pub get_elem?-pop_back-set_same :
      (xs : List A) (i : ℕ) (v : A)
      → suc i < length xs
      → get_elem? (pop_back (set xs i v)) i ≡ some v
  get_elem?-pop_back-set_same xs i v h =
      get_elem?-pop_back (set xs i v) i (omega (arith, length-set xs i v))
      ∙ get_elem?-set_same xs i v (omega arith)
