-- ===== src/Linalg/Complex/Laws.antt =====
-- The arithmetic of complex numbers.
use libcsics.Base.{◌≡◌, sym, ap, ap₂, ◌∙◌}
use libcsics.Linalg.Scalar.{
  Scalar, ◌⊕◌, ◌⊖◌, ◌⊗◌, expand, add-zero, add_left_comm, zero-mul, neg-mul, neg-neg,
}
use libcsics.Linalg.Complex.{
  Complex, complex_add, complex_mul, complex_mac, norm, complex_div, scalar_div,
}

module _ {ℓ} {A : Type ℓ} ⦃s : Scalar A⦄ where
  pub complex_eq : {a b : Complex A} → a.real ≡ b.real → a.imag ≡ b.imag → a ≡ b
  complex_eq p q = λ i. record { real = p i; imag = q i }

  pub complex_mul_assoc :
      (a b c : Complex A) → complex_mul (complex_mul a b) c ≡ complex_mul a (complex_mul b c)
  complex_mul_assoc a b c = complex_eq (simp expand) (simp expand)

  pub complex_mul_comm : (a b : Complex A) → complex_mul a b ≡ complex_mul b a
  complex_mul_comm a b = complex_eq (simp expand) (simp expand)

  pub complex_mul-add :
      (a b c : Complex A)
      → complex_mul a (complex_add b c) ≡ complex_add (complex_mul a b) (complex_mul a c)
  complex_mul-add a b c = complex_eq (simp expand) (simp expand)

  pub complex_mac-eq : (a b c : Complex A) → complex_mac a b c ≡ complex_add a (complex_mul b c)
  complex_mac-eq a b c = complex_eq (simp expand) (simp expand)

  cancel_behind : (t x : A) → t ⊕ (x ⊕ s.neg t) ≡ x
  cancel_behind t x = add_left_comm t x (s.neg t) ∙ ap (s.add x) (s.add-neg t) ∙ add-zero x

  cancel_two : (t u v : A) → t ⊕ (t ⊕ (u ⊕ (v ⊕ (s.neg t ⊕ s.neg t)))) ≡ u ⊕ v
  cancel_two t u v =
      ap (λ x. t ⊕ (t ⊕ x))
        (sym (s.add_assoc u v (s.neg t ⊕ s.neg t)) ∙ sym (s.add_assoc (u ⊕ v) (s.neg t) (s.neg t)))
      ∙ ap (s.add t) (cancel_behind t (u ⊕ v ⊕ s.neg t))
      ∙ cancel_behind t (u ⊕ v)

  -- The norm of a product is the product of the norms.
  pub norm-complex_mul : (a b : Complex A) → norm (complex_mul a b) ≡ norm a ⊗ norm b
  norm-complex_mul a b = simp expand (
      ap (λ x. a.imag ⊗ (a.imag ⊗ (b.imag ⊗ b.imag)) ⊕ (a.imag ⊗ (a.imag ⊗ (b.real ⊗ b.real)) ⊕ x))
        (cancel_two (a.imag ⊗ (b.imag ⊗ (a.real ⊗ b.real))) (b.imag ⊗ (b.imag ⊗ (a.real ⊗ a.real)))
          (a.real ⊗ (a.real ⊗ (b.real ⊗ b.real)))))

  neg_zero : s.neg s.zero ≡ s.zero
  neg_zero = sym (s.zero-add (s.neg s.zero)) ∙ s.add-neg s.zero

  pub complex_one-mul : (a : Complex A) → complex_mul (record { real = s.one; imag = s.zero }) a ≡ a
  complex_one-mul a =
      complex_eq (simp (neg_zero, zero-mul, s.one-mul, s.zero-add))
        (simp (zero-mul, s.one-mul, add-zero))

  -- Complex numbers are scalars, so that what holds of matrices of scalars holds of matrices of these.
  instance abbrev pub complexes : Scalar (Complex A)
  complexes = record {
    zero = record { real = s.zero; imag = s.zero };
    one = record { real = s.one; imag = s.zero };
    add = complex_add;
    neg = λ a. record { real = s.neg a.real; imag = s.neg a.imag };
    mul = complex_mul;
    add_assoc = λ a b c. complex_eq (s.add_assoc _ _ _) (s.add_assoc _ _ _);
    add_comm = λ a b. complex_eq (s.add_comm _ _) (s.add_comm _ _);
    zero-add = λ a. complex_eq (s.zero-add _) (s.zero-add _);
    add-neg = λ a. complex_eq (s.add-neg _) (s.add-neg _);
    mul_assoc = complex_mul_assoc;
    mul_comm = complex_mul_comm;
    one-mul = complex_one-mul;
    mul-add = complex_mul-add;
  }

  div_real :
      (p q x y v : A)
      → s.neg ((q ⊗ x ⊖ p ⊗ y) ⊗ v) ⊗ y ⊕ (p ⊗ x ⊕ q ⊗ y) ⊗ v ⊗ x ≡ p ⊗ ((x ⊗ x ⊕ y ⊗ y) ⊗ v)
  div_real p q x y v =
      let first = p ⊗ (x ⊗ (x ⊗ v)) in
      let second = p ⊗ (y ⊗ (y ⊗ v)) in
      simp expand (
        ap (λ z. first ⊕ (second ⊕ z)) (s.add-neg (q ⊗ (x ⊗ (y ⊗ v))))
        ∙ ap (s.add first) (add-zero second))

  div_imag :
      (p q x y v : A)
      → (p ⊗ x ⊕ q ⊗ y) ⊗ v ⊗ y ⊕ (q ⊗ x ⊖ p ⊗ y) ⊗ v ⊗ x ≡ q ⊗ ((x ⊗ x ⊕ y ⊗ y) ⊗ v)
  div_imag p q x y v =
      let first = q ⊗ (x ⊗ (x ⊗ v)) in
      let second = q ⊗ (y ⊗ (y ⊗ v)) in
      let cross = p ⊗ (x ⊗ (y ⊗ v)) in
      simp expand (
        ap (s.add cross) (sym (s.add_assoc first second (s.neg cross)))
        ∙ cancel_behind cross (first ⊕ second))

  module _ (div : A → A → A) where
    -- Dividing by a complex number whose norm has an inverse is undone by multiplying with it.
    pub complex_div-mul :
        (a b : Complex A) (inverse : A)
        → ((x : A) → div x (norm b) ≡ x ⊗ inverse)
        → norm b ⊗ inverse ≡ s.one
        → complex_mul (complex_div div a b) b ≡ a
    complex_div-mul a b inverse by unit =
        complex_eq
          (rw (by, by) (div_real a.real a.imag b.real b.imag inverse)
            ∙ ap (s.mul a.real) unit
            ∙ s.mul_comm a.real s.one
            ∙ s.one-mul a.real)
          (rw (by, by) (div_imag a.real a.imag b.real b.imag inverse)
            ∙ ap (s.mul a.imag) unit
            ∙ s.mul_comm a.imag s.one
            ∙ s.one-mul a.imag)

    -- Where the division of scalars by the parts of a complex number can be undone, dividing a scalar by
    -- that number cannot: the quotient times the number has twice the scalar as its real part.
    pub scalar_div-complex_mul :
        (x : A) (c : Complex A)
        → div x c.real ⊗ c.real ≡ x
        → div (s.neg x) c.imag ⊗ c.imag ≡ s.neg x
        → (complex_mul (scalar_div div x c) c).real ≡ x ⊕ x
    scalar_div-complex_mul x c p q =
        ap₂ s.add (neg-mul (div (s.neg x) c.imag) c.imag ∙ ap s.neg q ∙ neg-neg x) p
