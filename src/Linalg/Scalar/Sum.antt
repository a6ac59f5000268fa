-- ===== src/Linalg/Scalar/Sum.antt =====
-- Sums over `n` indices from `k` on.
use libcsics.Base.{ℕ, zero, suc, ◌+◌, ◌≤◌, ◌<◌, ◌≡◌, refl, sym, ap, ap₂, ◌∙◌, arith}
use libcsics.Linalg.Scalar.{Scalar, ◌⊕◌, ◌⊗◌, add_interchange, mul-add, add-mul, mul-zero, zero-mul}

module _ {ℓ} {A : Type ℓ} ⦃s : Scalar A⦄ where
  abbrev pub sum : ℕ → ℕ → (ℕ → A) → A
  sum zero k f = s.zero
  sum (suc n) k f = f k ⊕ sum n (suc k) f

  pub sum_congr :
      (n k : ℕ) (f g : ℕ → A) → ((l : ℕ) → k ≤ l → l < k + n → f l ≡ g l) → sum n k f ≡ sum n k g
  sum_congr zero k f g h = refl
  sum_congr (suc n) k f g h =
      ap₂ s.add (h k (omega arith) (omega arith))
        (sum_congr n (suc k) f g (λ l le lt. h l (omega arith) (omega arith)))

  sum-zero : (n k : ℕ) → sum n k (λ l. s.zero) ≡ s.zero
  sum-zero zero k = refl
  sum-zero (suc n) k = s.zero-add (sum n (suc k) (λ l. s.zero)) ∙ sum-zero n (suc k)

  pub sum-add : (n k : ℕ) (f g : ℕ → A) → sum n k (λ l. f l ⊕ g l) ≡ sum n k f ⊕ sum n k g
  sum-add zero k f g = sym (s.zero-add s.zero)
  sum-add (suc n) k f g =
      ap (s.add (f k ⊕ g k)) (sum-add n (suc k) f g)
      ∙ add_interchange (f k) (g k) (sum n (suc k) f) (sum n (suc k) g)

  pub mul-sum : (n k : ℕ) (a : A) (f : ℕ → A) → a ⊗ sum n k f ≡ sum n k (λ l. a ⊗ f l)
  mul-sum zero k a f = mul-zero a
  mul-sum (suc n) k a f =
      mul-add a (f k) (sum n (suc k) f) ∙ ap (s.add (a ⊗ f k)) (mul-sum n (suc k) a f)

  pub sum-mul : (n k : ℕ) (f : ℕ → A) (a : A) → sum n k f ⊗ a ≡ sum n k (λ l. f l ⊗ a)
  sum-mul zero k f a = zero-mul a
  sum-mul (suc n) k f a =
      add-mul (f k) (sum n (suc k) f) a ∙ ap (s.add (f k ⊗ a)) (sum-mul n (suc k) f a)

  pub sum_comm :
      (m n k l : ℕ) (f : ℕ → ℕ → A)
      → sum m k (λ i. sum n l (λ j. f i j)) ≡ sum n l (λ j. sum m k (λ i. f i j))
  sum_comm zero n k l f = sym (sum-zero n l)
  sum_comm (suc m) n k l f =
      ap (s.add (sum n l (λ j. f k j))) (sum_comm m n (suc k) l f)
      ∙ sym (sum-add n l (λ j. f k j) (λ j. sum m (suc k) (λ i. f i j)))
