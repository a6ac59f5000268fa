-- ===== src/Base/Digits.antt =====
-- `bit_or` by the lowest digit.
use Prim.Native.Nat.{ℕ, zero, suc, ◌+◌, ◌*◌, ◌/◌, ◌%◌, ◌≤◌, max, bit_or, bit_or-bitwise, digits}
use mathlib.Core.Path.{◌≡◌, refl}
use native.Mathlib.Omega.{arith}

-- The recursion that `bit_or` stands for, with more rounds than it needs.
abbrev or_rounds : ℕ → ℕ → ℕ → ℕ
or_rounds rounds x y = digits (λ d. d) max rounds x y

or_rounds_more : (k m x y : ℕ) → x ≤ k → x ≤ m → or_rounds k x y ≡ or_rounds m x y
or_rounds_more zero zero x y below under = refl
or_rounds_more zero (suc m) zero y below under = refl
or_rounds_more zero (suc m) (suc x) y below under = absurd (omega arith)
or_rounds_more (suc k) zero zero y below under = refl
or_rounds_more (suc k) zero (suc x) y below under = absurd (omega arith)
or_rounds_more (suc k) (suc m) zero y below under = refl
or_rounds_more (suc k) (suc m) (suc x) y below under =
    let later = or_rounds_more k m (suc x / 2) (y / 2) (omega arith) (omega arith) in
    omega (arith, later)

pub bit_or_digit : (x y : ℕ) → bit_or x y ≡ bit_or (x / 2) (y / 2) * 2 + max (x % 2) (y % 2)
bit_or_digit zero y = omega (arith, bit_or-bitwise zero y, bit_or-bitwise zero (y / 2))
bit_or_digit (suc x) y =
    let half = suc x / 2 in
    let later = or_rounds_more x half half (y / 2) (omega arith) (omega arith) in
    omega (arith, later, bit_or-bitwise (suc x) y, bit_or-bitwise half (y / 2))
