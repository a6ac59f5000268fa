-- ===== src/Wire/Exact.antt =====
-- Readers of a fixed size: they succeed exactly when their bytes are there, and take those alone.
use libcsics.Base.{
  ℕ, zero, suc, ◌+◌, ◌-◌, ◌≤◌, ◌<◌, ◌≡◌, refl, sym, ap, ◌∙◌, List, [], ◌∷◌, none, some, inl, inr,
  arith, length, take, drop, ltb, lt→ltb, le→not-ltb, Bool-cases, ltb→lt, not-ltb→le,
}
use libcsics.Wire.{Reader, read, read_be, ◌<*>◌, pure, of_bytes, to_native}

pub record Exact {ℓ} {A : Type ℓ} (r : Reader A) (n : ℕ) : Type ℓ where
  pub takes : (bs : List ℕ) → n ≤ length bs → (a : A) × (r bs ≡ (some a, drop n bs))
  pub fails : (bs : List ℕ) → length bs < n → (r bs).0 ≡ none

drop-nil : (n : ℕ) → drop {A = ℕ} n [] ≡ []
drop-nil zero = refl
drop-nil (suc n) = refl

drop-drop : (n m : ℕ) (bs : List ℕ) → drop m (drop n bs) ≡ drop (n + m) bs
drop-drop zero m bs = let e : m ≡ 0 + m = omega arith in ap (λ k. drop k bs) e
drop-drop (suc n) m [] = drop-nil m ∙ sym (drop-nil (suc n + m))
drop-drop (suc n) m (b ∷ bs) =
    let e : suc (n + m) ≡ suc n + m = omega arith in drop-drop n m bs ∙ ap (λ k. drop k (b ∷ bs)) e

pub length-drop : (n : ℕ) (bs : List ℕ) → length (drop n bs) ≡ length bs - n
length-drop zero bs = omega arith
length-drop (suc n) [] = omega arith
length-drop (suc n) (b ∷ bs) = omega (arith, length-drop n bs)

pub Exact-pure {ℓ} : {A : Type ℓ} (a : A) → Exact (pure a) 0
unfolding pure
Exact-pure a = record { takes = λ bs h. (a, refl); fails = λ bs h. absurd (omega arith) }

pub Exact-read : (n : ℕ) → Exact (read n) n
unfolding read
Exact-read n = record {
  takes = λ bs h. (of_bytes (take n bs), rw (le→not-ltb (length bs) n h));
  fails = λ bs h. rw (lt→ltb (length bs) n h);
}

pub Exact-read_be : (n : ℕ) → Exact (read_be n) n
unfolding read_be
Exact-read_be n = record {
  takes = λ bs h. let p = (Exact-read n).takes bs h in (to_native n p.0, rw p.1);
  fails = λ bs h. rw ((Exact-read n).fails bs h, read_be);
}

infixl 60 ◌&◌
pub ◌&◌ {ℓ κ} :
    {A : Type ℓ} {B : Type κ} {rf : Reader (A → B)} {ra : Reader A} {n m : ℕ}
    → Exact rf n
    → Exact ra m
    → Exact (rf <*> ra) (n + m)
unfolding ◌<*>◌
◌&◌ {rf} {ra} {n} {m} f a = record {
  takes = λ bs h.
      let p = f.takes bs (omega arith) in
      let q = a.takes (drop n bs) (omega (arith, length-drop n bs)) in
      (p.0 q.0, rw (p.1, q.1, drop-drop n m bs));
  fails = λ bs h. elim (Bool-cases (ltb (length bs) n)) [
    | inl short ↦ rw (f.fails bs (ltb→lt (length bs) n short))
    | inr long ↦
        let p = f.takes bs (not-ltb→le (length bs) n long) in
        rw (
          p.1,
          a.fails (drop n bs) (omega (arith, length-drop n bs, not-ltb→le (length bs) n long)),
        )
  ];
}
