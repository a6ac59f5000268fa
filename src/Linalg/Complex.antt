-- ===== src/Linalg/Complex.antt =====
-- include/csics/linalg/Complex.hpp, and what Ops.hpp does with complex numbers. `std::fma` is a product
-- and a sum.
pub mod Laws
use libcsics.Base.{◌≡◌}
use libcsics.Linalg.Scalar.{Scalar, ◌⊕◌, ◌⊖◌, ◌⊗◌}

pub record Complex {ℓ} (A : Type ℓ) : Type ℓ where
  pub real : A
  pub imag : A

module _ {ℓ} {A : Type ℓ} ⦃s : Scalar A⦄ where
  abbrev pub fma : A → A → A → A
  fma a b c = a ⊗ b ⊕ c

  -- `operator+`, `operator-` and `operator*`.
  abbrev pub complex_add : Complex A → Complex A → Complex A
  complex_add a b = record { real = a.real ⊕ b.real; imag = a.imag ⊕ b.imag }

  abbrev pub complex_sub : Complex A → Complex A → Complex A
  complex_sub a b = record { real = a.real ⊖ b.real; imag = a.imag ⊖ b.imag }

  abbrev pub complex_mul : Complex A → Complex A → Complex A
  complex_mul a b = record {
    real = fma (s.neg a.imag) b.imag (a.real ⊗ b.real);
    imag = fma a.real b.imag (a.imag ⊗ b.real);
  }

  -- `Mac::apply`, `Conj::apply` and `Norm::apply` of complex numbers.
  abbrev pub complex_mac : Complex A → Complex A → Complex A → Complex A
  complex_mac a b c = record {
    real = fma b.real c.real a.real ⊖ b.imag ⊗ c.imag;
    imag = fma b.real c.imag a.imag ⊕ b.imag ⊗ c.real;
  }

  abbrev pub conj : Complex A → Complex A
  conj c = record { real = c.real; imag = s.neg c.imag }

  abbrev pub norm : Complex A → A
  norm c = c.real ⊗ c.real ⊕ c.imag ⊗ c.imag

  module _ (div : A → A → A) where
    -- `operator/` of complex numbers, and of a scalar by one, with the scalars' division.
    abbrev pub complex_div : Complex A → Complex A → Complex A
    complex_div a b = record {
      real = div (a.real ⊗ b.real ⊕ a.imag ⊗ b.imag) (norm b);
      imag = div (a.imag ⊗ b.real ⊖ a.real ⊗ b.imag) (norm b);
    }

    abbrev pub scalar_div : A → Complex A → Complex A
    scalar_div x c = record { real = div x c.real; imag = div (s.neg x) c.imag }
