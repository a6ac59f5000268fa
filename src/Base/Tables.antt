-- ===== src/Base/Tables.antt =====
-- Facts about every number below a small bound, by evaluation.
use Prim.Native.Nat.{ℕ, zero, suc, ◌<◌}
use mathlib.Core.Path.{◌≡◌}
use mathlib.Core.Bool.{Bool, true, false}
use native.Mathlib.Omega.{arith}
use libcsics.Base.Tests.{◌==◌}

module _ (f g : ℕ → ℕ) where
  unfoldable pub same_below : ℕ → Bool
  same_below zero = true
  same_below (suc n) = elim (f n == g n) [ true ↦ same_below n | false ↦ false ]

  pub eq_of_same_below : (n x : ℕ) → same_below n ≡ true → x < n → f x ≡ g x
  unfolding same_below
  eq_of_same_below zero x t h = absurd (omega arith)
  eq_of_same_below (suc n) x t h = ground (arith, eq_of_same_below n x)
