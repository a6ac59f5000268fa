-- ===== src/Linalg/Scalar.antt =====
-- The scalars of include/csics/linalg: a type whose sums and products are those of a commutative ring,
-- as integers have them that do not overflow, and floating-point numbers as far as they do not round.
pub mod Sum
pub mod Integers
use libcsics.Base.{◌≡◌, refl, sym, ap, ◌∙◌}

pub record Scalar {ℓ} (T : Type ℓ) : Type ℓ where
  pub add : T → T → T
  pub neg : T → T
  pub zero : T
  pub add_comm : (x y : T) → add x y ≡ add y x
  pub add_assoc : (x y z : T) → add (add x y) z ≡ add x (add y z)
  pub zero-add : (x : T) → add zero x ≡ x
  pub add-neg : (x : T) → add x (neg x) ≡ zero
  pub mul : T → T → T
  pub one : T
  pub mul_comm : (x y : T) → mul x y ≡ mul y x
  pub mul_assoc : (x y z : T) → mul (mul x y) z ≡ mul x (mul y z)
  pub one-mul : (x : T) → mul one x ≡ x
  pub mul-add : (x y z : T) → mul x (add y z) ≡ add (mul x y) (mul x z)

module _ {ℓ} {A : Type ℓ} ⦃s : Scalar A⦄ where
  infixl 70 ◌⊗◌
  abbrev pub ◌⊗◌ : A → A → A
  x ⊗ y = s.mul x y

  infixl 65 ◌⊕◌ ◌⊖◌
  abbrev pub ◌⊕◌ : A → A → A
  x ⊕ y = s.add x y

  abbrev pub ◌⊖◌ : A → A → A
  x ⊖ y = s.add x (s.neg y)

  pub add_assoc : (a b c : A) → a ⊕ b ⊕ c ≡ a ⊕ (b ⊕ c)
  add_assoc = s.add_assoc

  pub add_comm : (a b : A) → a ⊕ b ≡ b ⊕ a
  add_comm = s.add_comm

  pub add_left_comm : (a b c : A) → a ⊕ (b ⊕ c) ≡ b ⊕ (a ⊕ c)
  add_left_comm a b c =
      sym (s.add_assoc a b c) ∙ ap (λ x. x ⊕ c) (s.add_comm a b) ∙ s.add_assoc b a c

  pub mul_assoc : (a b c : A) → a ⊗ b ⊗ c ≡ a ⊗ (b ⊗ c)
  mul_assoc = s.mul_assoc

  pub mul_comm : (a b : A) → a ⊗ b ≡ b ⊗ a
  mul_comm = s.mul_comm

  pub mul_left_comm : (a b c : A) → a ⊗ (b ⊗ c) ≡ b ⊗ (a ⊗ c)
  mul_left_comm a b c =
      sym (s.mul_assoc a b c) ∙ ap (λ x. x ⊗ c) (s.mul_comm a b) ∙ s.mul_assoc b a c

  pub add-zero : (a : A) → a ⊕ s.zero ≡ a
  add-zero a = s.add_comm a s.zero ∙ s.zero-add a

  pub mul-add : (a b c : A) → a ⊗ (b ⊕ c) ≡ a ⊗ b ⊕ a ⊗ c
  mul-add = s.mul-add

  pub add-mul : (a b c : A) → (a ⊕ b) ⊗ c ≡ a ⊗ c ⊕ b ⊗ c
  add-mul a b c = rw (s.mul_comm (a ⊕ b) c, s.mul_comm a c, s.mul_comm b c) (s.mul-add c a b)

  -- A sum that does not change what it is added to is zero.
  zero_of_add : (a b : A) → a ⊕ b ≡ a → b ≡ s.zero
  zero_of_add a b h =
      sym (s.zero-add b)
      ∙ ap (λ z. z ⊕ b) (sym (s.add-neg a) ∙ s.add_comm a (s.neg a))
      ∙ s.add_assoc (s.neg a) a b
      ∙ ap (s.add (s.neg a)) h
      ∙ s.add_comm (s.neg a) a
      ∙ s.add-neg a

  pub mul-zero : (a : A) → a ⊗ s.zero ≡ s.zero
  mul-zero a =
      zero_of_add (a ⊗ s.zero) (a ⊗ s.zero)
        (sym (s.mul-add a s.zero s.zero) ∙ ap (s.mul a) (s.zero-add s.zero))

  pub zero-mul : (a : A) → s.zero ⊗ a ≡ s.zero
  zero-mul a = s.mul_comm s.zero a ∙ mul-zero a

  -- What cancels a number is its negative.
  pub neg_of_add : (a b : A) → a ⊕ b ≡ s.zero → b ≡ s.neg a
  neg_of_add a b h =
      sym (s.zero-add b)
      ∙ ap (λ z. z ⊕ b) (sym (s.add-neg a) ∙ s.add_comm a (s.neg a))
      ∙ s.add_assoc (s.neg a) a b
      ∙ ap (s.add (s.neg a)) h
      ∙ add-zero (s.neg a)

  pub mul-neg : (a b : A) → a ⊗ s.neg b ≡ s.neg (a ⊗ b)
  mul-neg a b =
      neg_of_add (a ⊗ b) (a ⊗ s.neg b)
        (sym (s.mul-add a b (s.neg b)) ∙ ap (s.mul a) (s.add-neg b) ∙ mul-zero a)

  pub neg-mul : (a b : A) → s.neg a ⊗ b ≡ s.neg (a ⊗ b)
  neg-mul a b = s.mul_comm (s.neg a) b ∙ mul-neg b a ∙ ap s.neg (s.mul_comm b a)

  pub neg-neg : (a : A) → s.neg (s.neg a) ≡ a
  neg-neg a = sym (neg_of_add (s.neg a) a (s.add_comm (s.neg a) a ∙ s.add-neg a))

  pub neg-add : (a b : A) → s.neg (a ⊕ b) ≡ s.neg a ⊕ s.neg b
  neg-add a b = sym (
      neg_of_add (a ⊕ b) (s.neg a ⊕ s.neg b) (
        s.add_assoc a b (s.neg a ⊕ s.neg b)
        ∙ ap (s.add a) (
            add_left_comm b (s.neg a) (s.neg b)
            ∙ ap (s.add (s.neg a)) (s.add-neg b)
            ∙ add-zero (s.neg a))
        ∙ s.add-neg a))

  pub add_interchange : (a b c d : A) → a ⊕ b ⊕ (c ⊕ d) ≡ a ⊕ c ⊕ (b ⊕ d)
  add_interchange a b c d =
      s.add_assoc a b (c ⊕ d) ∙ ap (s.add a) (add_left_comm b c d) ∙ sym (s.add_assoc a c (b ⊕ d))

-- Sorts sums of products.
pub ruleset expand = (
  mul-add, add-mul, mul-neg, neg-mul, neg-neg, neg-add, mul_assoc, mul_comm, mul_left_comm,
  add_assoc, add_comm, add_left_comm,
)
