-- ===== src/Queue/Spsc/PowerOfTwo.antt =====
-- `get_next_power_of_two`: each of its steps copies the set bits downwards, twice as far as the last.
use libcsics.Base.{
  ℕ, zero, suc, ◌+◌, ◌-◌, ◌*◌, ◌/◌, ◌%◌, ◌^◌, ◌≤◌, ◌<◌, ◌≡◌, refl, sym, ap, ap₂, ◌∙◌, inl, inr, min,
  max, bit_or, arith, Bool-cases, leb, leb→le, not-leb→lt,
}
use libcsics.Base.Digits.{bit_or_digit}
use native.Mathlib.Nat.{div-div-eq-div-mul, pow-suc}
use libcsics.Queue.Memory.{Memory}
use libcsics.Queue.Spsc.{smear, get_next_power_of_two, new_queue}

-- The function forgets the lowest bit where its argument does, and its lowest bit is set if one of the
-- lowest bits of its argument, of which there are `q` values, is.
record Copies (q : ℕ) (f : ℕ → ℕ) : Type 0 where
  halves : (v : ℕ) → f v / 2 ≡ f (v / 2)
  lowest : (v : ℕ) → f v % 2 ≡ min 1 (v % q)

div_comm : (v m n : ℕ) → v / m / n ≡ v / n / m
div_comm v m n =
    div-div-eq-div-mul v m n ∙ ap (λ (k : ℕ). v / k) (grind arith) ∙ sym (div-div-eq-div-mul v n m)

-- It forgets any number of bits.
Copies-shift : (q : ℕ) (f : ℕ → ℕ) → Copies q f → (k v : ℕ) → f v / 2 ^ k ≡ f (v / 2 ^ k)
Copies-shift q f h zero v =
    let same : f v / 1 ≡ f v = omega arith in let one : v ≡ v / 1 = omega arith in same ∙ ap f one
Copies-shift q f h (suc k) v =
    let deeper : (x : ℕ) → x / 2 ^ suc k ≡ x / 2 ^ k / 2 =
      λ x. ap (λ (n : ℕ). x / n) (pow-suc 2 k) ∙ sym (div-div-eq-div-mul x (2 ^ k) 2) in
    deeper (f v)
    ∙ ap (λ (x : ℕ). x / 2) (Copies-shift q f h k v)
    ∙ h.halves (v / 2 ^ k)
    ∙ ap f (sym (deeper v))

or_half : (x y : ℕ) → bit_or x y / 2 ≡ bit_or (x / 2) (y / 2)
or_half x y = omega (arith, bit_or_digit x y)

or_lowest : (x y : ℕ) → bit_or x y % 2 ≡ max (x % 2) (y % 2)
or_lowest x y = omega (arith, bit_or_digit x y)

Copies-smear :
    (k p q : ℕ) (f : ℕ → ℕ)
    → 2 ^ k ≡ p
    → ((v : ℕ) → max (min 1 (v % p)) (min 1 (v / p % p)) ≡ min 1 (v % q))
    → Copies p f
    → Copies q (λ v. smear k (f v))
unfolding smear
Copies-smear k p q f power joined h = record {
  halves = λ v.
      or_half (f v) (f v / 2 ^ k)
      ∙ ap₂ bit_or (h.halves v) (div_comm (f v) (2 ^ k) 2 ∙ ap (λ (x : ℕ). x / 2 ^ k) (h.halves v));
  lowest = λ v.
      or_lowest (f v) (f v / 2 ^ k)
      ∙ ap₂ max (h.lowest v) (
          ap (λ (x : ℕ). x % 2) (Copies-shift p f h k v)
          ∙ h.lowest (v / 2 ^ k)
          ∙ ap (λ (n : ℕ). min 1 (v / n % p)) power)
      ∙ joined v;
}

Copies-itself : Copies 2 (λ v. v)
Copies-itself = record { halves = λ v. refl; lowest = λ v. omega arith }

smeared : ℕ → ℕ
smeared v = smear 32 (smear 16 (smear 8 (smear 4 (smear 2 (smear 1 v)))))

smeared-Copies : Copies (2 ^ 64) smeared
unfolding smeared
smeared-Copies =
    Copies-smear 32 (2 ^ 32) (2 ^ 64) _ refl (λ v. omega arith)
      (Copies-smear 16 65536 (2 ^ 32) _ refl (λ v. omega arith)
        (Copies-smear 8 256 65536 _ refl (λ v. omega arith)
          (Copies-smear 4 16 256 _ refl (λ v. omega arith)
            (Copies-smear 2 4 16 _ refl (λ v. omega arith)
              (Copies-smear 1 2 4 _ refl (λ v. omega arith) Copies-itself)))))

-- One less than a power of two, above the number and at most twice it.
abbrev Smallest : ℕ → Type 0
Smallest v = (k : ℕ) × (smeared v + 1 ≡ 2 ^ k) × (v < 2 ^ k) × (2 ^ k ≤ max 1 (2 * v))

smeared-Smallest : (rounds v : ℕ) → v ≤ rounds → v < 2 ^ 64 → Smallest v
smeared-Smallest rounds zero le small =
    (0, omega (arith, smeared-Copies.halves 0, smeared-Copies.lowest 0), omega arith, omega arith)
smeared-Smallest zero (suc v) le small = absurd (omega arith)
smeared-Smallest (suc rounds) (suc v) le small =
    let (k, is_power, above, twice) =
      smeared-Smallest rounds (suc v / 2) (omega arith) (omega arith) in
    let twofold : 2 ^ suc k ≡ 2 * 2 ^ k = pow-suc 2 k ∙ omega arith in
    (
      suc k,
      omega
          (arith, is_power, twofold, smeared-Copies.halves (suc v), smeared-Copies.lowest (suc v)),
      omega (arith, above, twofold),
      omega (arith, above, twice, twofold),
    )

get_next_power_of_two-Smallest :
    (v : ℕ)
    → 1 ≤ v
    → v ≤ 2 ^ 63
    → (k : ℕ) × (get_next_power_of_two v ≡ 2 ^ k) × (v ≤ 2 ^ k) × (2 ^ k < 2 * v)
unfolding get_next_power_of_two smeared
get_next_power_of_two-Smallest v some few =
    let less : (v + 2 ^ 64 - 1) % 2 ^ 64 ≡ v - 1 = omega arith in
    let (k, is_power, above, twice) =
      smeared-Smallest (v - 1) (v - 1) (omega arith) (omega arith) in
    (
      k,
      ap (λ (x : ℕ). (smeared x + 1) % 2 ^ 64) less ∙ omega (arith, is_power, twice),
      omega arith,
      omega arith,
    )

pow_pos : (l : ℕ) → 0 < 2 ^ l
pow_pos zero = omega arith
pow_pos (suc l) = omega (arith, pow-suc 2 l, pow_pos l)

-- A new queue, for at least one byte and at most 2 ^ 63, has as its capacity a power of two that is at
-- least the bytes asked for and the cache line, itself a power of two, and less than twice the larger.
pub new_queue-capacity :
    (l v : ℕ) (bytes : Memory)
    → 1 ≤ v
    → v ≤ 2 ^ 63
    → (k : ℕ) × ((new_queue (2 ^ l) bytes v).capacity ≡ 2 ^ k)
      × (max (2 ^ l) v ≤ 2 ^ k)
      × (2 ^ k < 2 * max (2 ^ l) v)
unfolding new_queue
new_queue-capacity l v bytes some few =
    let (k, is_power, above, twice) = get_next_power_of_two-Smallest v some few in
    elim (Bool-cases (leb (2 ^ l) (2 ^ k))) [
      | inl le ↦
          let fits = leb→le (2 ^ l) (2 ^ k) le in
          (k, omega (arith, is_power, fits), omega (arith, above, fits), omega (arith, twice, fits))
      | inr gt ↦
          let more = not-leb→lt (2 ^ l) (2 ^ k) gt in
          (l, omega (arith, is_power, more), omega (arith, above, more), omega (arith, pow_pos l))
    ]
