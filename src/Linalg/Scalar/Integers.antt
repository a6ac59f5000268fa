-- ===== src/Linalg/Scalar/Integers.antt =====
-- Integers are scalars.
use libcsics.Base.{◌≡◌, refl, sym, ap, ◌∙◌}
use mathlib.Core.Nat.{zero, suc}
use mathlib.Core.Int.{
  ℤ, pos, negsuc, suc_ℤ, pred_ℤ, neg_ℤ, ◌+ℤ◌, ◌-ℤ◌, ◌*ℤ◌, +ℤ_assoc, +ℤ_comm, +ℤ_idl, +ℤ_invr,
  +ℤ_invl, +ℤ-neg_ℤ_cancel, *ℤ_comm, suc_ℤ-*ℤ, pred_ℤ-*ℤ,
}
use libcsics.Linalg.Scalar.{Scalar}

*ℤ-suc_ℤ : (m k : ℤ) → m *ℤ suc_ℤ k ≡ m *ℤ k +ℤ m
*ℤ-suc_ℤ m k = *ℤ_comm m (suc_ℤ k) ∙ suc_ℤ-*ℤ k m ∙ ap (λ x. x +ℤ m) (*ℤ_comm k m)

*ℤ-pred_ℤ : (m k : ℤ) → m *ℤ pred_ℤ k ≡ m *ℤ k -ℤ m
*ℤ-pred_ℤ m k = *ℤ_comm m (pred_ℤ k) ∙ pred_ℤ-*ℤ k m ∙ ap (λ x. x -ℤ m) (*ℤ_comm k m)

pub *ℤ-+ℤ : (a b c : ℤ) → a *ℤ (b +ℤ c) ≡ a *ℤ b +ℤ a *ℤ c
*ℤ-+ℤ a b (pos zero) = refl
*ℤ-+ℤ a b (pos (suc n)) =
    *ℤ-suc_ℤ a (b +ℤ pos n)
    ∙ ap (λ x. x +ℤ a) (*ℤ-+ℤ a b (pos n))
    ∙ +ℤ_assoc (a *ℤ b) (a *ℤ pos n) a
*ℤ-+ℤ a b (negsuc zero) = *ℤ-pred_ℤ a b
*ℤ-+ℤ a b (negsuc (suc n)) =
    *ℤ-pred_ℤ a (b +ℤ negsuc n)
    ∙ ap (λ x. x -ℤ a) (*ℤ-+ℤ a b (negsuc n))
    ∙ +ℤ_assoc (a *ℤ b) (a *ℤ negsuc n) (neg_ℤ a)

*ℤ-neg_ℤ : (a b : ℤ) → a *ℤ neg_ℤ b ≡ neg_ℤ (a *ℤ b)
*ℤ-neg_ℤ a b =
    sym (+ℤ-neg_ℤ_cancel (a *ℤ neg_ℤ b) (a *ℤ b))
    ∙ ap (λ x. x -ℤ a *ℤ b) (sym (*ℤ-+ℤ a (neg_ℤ b) b) ∙ ap (λ x. a *ℤ x) (+ℤ_invl b))
    ∙ +ℤ_idl (neg_ℤ (a *ℤ b))

pub *ℤ_assoc : (a b c : ℤ) → a *ℤ b *ℤ c ≡ a *ℤ (b *ℤ c)
*ℤ_assoc a b (pos zero) = refl
*ℤ_assoc a b (pos (suc n)) =
    ap (λ x. x +ℤ a *ℤ b) (*ℤ_assoc a b (pos n)) ∙ sym (*ℤ-+ℤ a (b *ℤ pos n) b)
*ℤ_assoc a b (negsuc zero) = sym (*ℤ-neg_ℤ a b)
*ℤ_assoc a b (negsuc (suc n)) =
    ap (λ x. x -ℤ a *ℤ b) (*ℤ_assoc a b (negsuc n))
    ∙ ap (λ x. a *ℤ (b *ℤ negsuc n) +ℤ x) (sym (*ℤ-neg_ℤ a b))
    ∙ sym (*ℤ-+ℤ a (b *ℤ negsuc n) (neg_ℤ b))

pub one-*ℤ : (a : ℤ) → pos (suc zero) *ℤ a ≡ a
one-*ℤ a = *ℤ_comm (pos (suc zero)) a ∙ +ℤ_idl a

instance abbrev pub integers : Scalar ℤ
integers = record {
  zero = pos zero;
  one = pos (suc zero);
  add = ◌+ℤ◌;
  neg = neg_ℤ;
  mul = ◌*ℤ◌;
  add_assoc = +ℤ_assoc;
  add_comm = +ℤ_comm;
  zero-add = +ℤ_idl;
  add-neg = +ℤ_invr;
  mul_assoc = *ℤ_assoc;
  mul_comm = *ℤ_comm;
  one-mul = one-*ℤ;
  mul-add = *ℤ-+ℤ;
}
