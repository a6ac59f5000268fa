-- ===== src/Buffer/Capacity.antt =====
-- `CapacityPolicy` and `adjust_capacity`.
use libcsics.Base.{
  ℕ, ◌+◌, ◌-◌, ◌*◌, ◌/◌, ◌%◌, ◌^◌, ◌≤◌, ◌<◌, ◌≡◌, ltb, if◌then◌else◌, add_size, arith,
}
use native.Mathlib.Nat.{div-add-mod, mod-lt}

-- What the headers call and do not define: `std::bit_ceil`, and `std::ceil(n * 1.5f)` in floats, cut to
-- a `size_t`.
pub record Rounding : Type 0 where
  pub bit_ceil : ℕ → ℕ
  pub ceil_of_half_more : ℕ → ℕ
  pub bit_ceil-le : (n : ℕ) → n ≤ 2 ^ 63 → n ≤ bit_ceil n

-- The kinds of a policy, each with its `size` or `func`.
pub data CapacityPolicy : Type 0 where
  exact fifty_percent power_of_two : CapacityPolicy
  cache_aligned : ℕ → CapacityPolicy
  custom : (ℕ → ℕ) → CapacityPolicy

pub adjust_capacity : Rounding → CapacityPolicy → ℕ → ℕ
adjust_capacity r exact n = n
adjust_capacity r power_of_two n = r.bit_ceil n
adjust_capacity r (cache_aligned alignment) n =
    (add_size n (alignment - 1) / alignment * alignment) % 2 ^ 64
adjust_capacity r (custom func) n = func n
adjust_capacity r fifty_percent n =
    if ltb n (r.ceil_of_half_more n) then r.ceil_of_half_more n else n

-- What a policy needs so that it never gives less than was asked for.
abbrev pub IsGenerous : CapacityPolicy → ℕ → Type 0
IsGenerous exact n = Unit
IsGenerous fifty_percent n = Unit
IsGenerous power_of_two n = n ≤ 2 ^ 63
IsGenerous (cache_aligned alignment) n = (0 < alignment) × (n + alignment < 2 ^ 64)
IsGenerous (custom func) n = n ≤ func n

round_up_le : (n a : ℕ) → 0 < a → (n ≤ (n + (a - 1)) / a * a) × ((n + (a - 1)) / a * a < n + a)
round_up_le n a h =
    let whole = div-add-mod (n + (a - 1)) a in
    let rest = mod-lt (n + (a - 1)) h in (grind arith, grind arith)

-- Every policy gives at least the capacity that is asked for: a custom one if its function does, one
-- of a power of two up to 2 ^ 63, and one of whole cache lines if they are not empty and the size stays a line away from the largest
-- `size_t`.
pub adjust_capacity-le :
    (r : Rounding) (policy : CapacityPolicy) (n : ℕ)
    → IsGenerous policy n
    → n ≤ adjust_capacity r policy n
unfolding adjust_capacity
adjust_capacity-le r exact n h = omega arith
adjust_capacity-le r power_of_two n h = r.bit_ceil-le n h
adjust_capacity-le r (custom func) n h = h
adjust_capacity-le r fifty_percent n h = ground arith
adjust_capacity-le r (cache_aligned a) n (pos, far) =
    let whole : (n + (a - 1)) % 2 ^ 64 ≡ n + (a - 1) = omega arith in
    rw whole (omega (arith, round_up_le n a pos))
