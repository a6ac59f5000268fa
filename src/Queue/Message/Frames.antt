-- ===== src/Queue/Message/Frames.antt =====
-- Arithmetic of frames of one cache line each, going round a buffer of `n` of them.
use libcsics.Base.{
  ℕ, suc, ◌+◌, ◌-◌, ◌*◌, ◌/◌, ◌%◌, ◌≤◌, ◌<◌, ◌≡◌, ◌≢◌, ap, ◌∙◌, ◌⊎◌, inl, inr, arith, ltb,
  Bool-cases, ltb→lt, not-ltb→le,
}
use native.Mathlib.Nat.{
  mod-lt, div-add-mod, mod-eq_of_lt, add-mul-mod_self_left, mul-add-mod_self_left,
}

-- The offset of frame k.
abbrev pub offset : ℕ → ℕ → ℕ → ℕ
offset line n k = line * (k % n)

pub frame_end : (line n f : ℕ) → f < n → line * f + line ≤ line * n
frame_end line n f h = grind arith

-- The byte index of frame k, taken round the buffer.
pub mod-frame : (line n k : ℕ) → 0 < line → 0 < n → (line * k) % (line * n) ≡ offset line n k
mod-frame line n k hl hn =
    ap (λ x. x % (line * n)) split
    ∙ add-mul-mod_self_left (line * (k % n)) (line * n) (k / n)
    ∙ mod-eq_of_lt (omega (arith, frame_end line n (k % n) (mod-lt k hn)))
  where
    split : line * k ≡ line * (k % n) + line * n * (k / n)
    split = omega (arith, ap (λ (t : ℕ). line * t) (div-add-mod k n))

-- A larger quotient is n further at least.
quotient_steps : (n u v : ℕ) → (n * v ≤ n * u) ⊎ (n * u + n ≤ n * v)
quotient_steps n u v = elim (Bool-cases (ltb u v)) [
  | inl h ↦ let lt = ltb→lt u v h in inr (grind arith)
  | inr h ↦ let le = not-ltb→le u v h in inl (grind arith)
]

-- Fewer than n steps round the buffer do not come back.
pub frames_differ : (n a b : ℕ) → 0 < n → a < b → b < a + n → a % n ≢ b % n
frames_differ n a b hn lt near e =
    let ha = div-add-mod a n in
    let hb = div-add-mod b n in
    elim (quotient_steps n (a / n) (b / n)) [ inl h ↦ omega arith | inr h ↦ omega arith ]

pub frames_apart :
    (line f g : ℕ) → f ≢ g → (line * f + line ≤ line * g) ⊎ (line * g + line ≤ line * f)
frames_apart line f g ne = elim (Bool-cases (ltb f g)) [
  | inl h ↦ let lt = ltb→lt f g h in inl (grind arith)
  | inr h ↦ let le = not-ltb→le f g h in let gt : g < f = omega arith in inr (grind arith)
]

-- A commit of one message moves an index by one line.
pub round_up :
    (line k s : ℕ)
    → 8 + s < line
    → 0 < s
    → line * k + s + 8 + (line - 1) - (line * k + s + 8 + (line - 1)) % line ≡ line * (k + 1)
round_up line k s small pos =
    let at : line * k + s + 8 + (line - 1) ≡ line * (k + 1) + (s + 7) = grind arith in
    let left : (line * (k + 1) + (s + 7)) % line ≡ s + 7 =
      mul-add-mod_self_left line (k + 1) (s + 7) ∙ mod-eq_of_lt (omega arith) in
    simp at (omega (arith, left))

pub span : (line k m : ℕ) → line * (k + m) ≡ line * k + line * m
span line k m = grind arith

pub grow : (line k m : ℕ) → 0 < line → line * k < line * (k + suc m)
grow line k m pos = grind arith

pub times_le : (line a b : ℕ) → a ≤ b → line * a ≤ line * b
times_le line a b h = grind arith
