-- ===== src/Wire/Bytes.antt =====
-- Byte order: the bytes of an object and back, and `byteswap`.
use libcsics.Base.{
  ℕ, zero, suc, ◌/◌, ◌%◌, ◌^◌, ◌<◌, ◌≡◌, refl, sym, ap, ap₂, subst, ◌∙◌, List, [], ◌∷◌, reverse,
  reverse-cons, arith, length, All, All-append, length-reverse,
}
use libcsics.Wire.{le_bytes, of_bytes, byteswap, from_native, to_native, raw, be}
use mathlib.Core.List.{reverse-reverse}
use native.Mathlib.Nat.{pow-suc}

abbrev pub IsByte : ℕ → Type 0
IsByte b = b < 256

pub length-le_bytes : (n v : ℕ) → length (le_bytes n v) ≡ n
length-le_bytes zero v = refl
length-le_bytes (suc n) v = ap suc (length-le_bytes n (v / 256))

le_bytes-IsByte : (n v : ℕ) → All IsByte (le_bytes n v)
le_bytes-IsByte zero v = tt
le_bytes-IsByte (suc n) v = (omega arith, le_bytes-IsByte n (v / 256))

pub of_bytes-le_bytes : (n v : ℕ) → v < 256 ^ n → of_bytes (le_bytes n v) ≡ v
of_bytes-le_bytes zero v h = omega arith
of_bytes-le_bytes (suc n) v h =
    omega (arith, of_bytes-le_bytes n (v / 256) (omega (arith, pow-suc 256 n)))

le_bytes-of_bytes : (bs : List ℕ) → All IsByte bs → le_bytes (length bs) (of_bytes bs) ≡ bs
le_bytes-of_bytes [] h = refl
le_bytes-of_bytes (b ∷ bs) (hb, hbs) =
    ap₂ ◌∷◌ (omega arith) (ap (le_bytes (length bs)) (omega arith) ∙ le_bytes-of_bytes bs hbs)

All-reverse : (bs : List ℕ) → All IsByte bs → All IsByte (reverse bs)
All-reverse [] h = tt
All-reverse (b ∷ bs) h =
    subst (All IsByte) (sym (reverse-cons b bs))
      (All-append IsByte (reverse bs) (b ∷ []) (All-reverse bs h.1) (h.0, tt))

pub length-raw : (n v : ℕ) → length (raw n v) ≡ n
unfolding raw
length-raw n v = length-le_bytes n v

pub length-be : (n v : ℕ) → length (be n v) ≡ n
unfolding be
length-be n v = length-le_bytes n (from_native n v)

be_bytes : (n v : ℕ) → le_bytes n (of_bytes (reverse (le_bytes n v))) ≡ reverse (le_bytes n v)
be_bytes n v =
    ap (λ k. le_bytes k (of_bytes (reverse (le_bytes n v))))
      (sym (length-reverse (le_bytes n v) ∙ length-le_bytes n v))
    ∙ le_bytes-of_bytes (reverse (le_bytes n v)) (All-reverse _ (le_bytes-IsByte n v))

-- The representation of a big-endian value is stored highest byte first.
pub be-reverse : (n v : ℕ) → be n v ≡ reverse (le_bytes n v)
unfolding be from_native byteswap
be-reverse n v = be_bytes n v

-- `byteswap` undoes itself on an n-byte object.
pub byteswap-byteswap : (n v : ℕ) → v < 256 ^ n → byteswap n (byteswap n v) ≡ v
unfolding byteswap
byteswap-byteswap n v h =
    ap (λ bs. of_bytes (reverse bs)) (be_bytes n v)
    ∙ ap of_bytes (reverse-reverse (le_bytes n v))
    ∙ of_bytes-le_bytes n v h

pub to_native-of_bytes-be : (n v : ℕ) → v < 256 ^ n → to_native n (of_bytes (be n v)) ≡ v
unfolding to_native byteswap
to_native-of_bytes-be n v h =
    ap (λ bs. of_bytes (reverse (le_bytes n (of_bytes bs)))) (be-reverse n v)
    ∙ byteswap-byteswap n v h

-- An object of one byte.
pub raw_byte : (v : ℕ) → raw 1 v ≡ (v % 256) ∷ []
unfolding raw
raw_byte v = refl

pub to_native_byte : (b : ℕ) → b < 256 → to_native 1 b ≡ b
unfolding to_native byteswap
to_native_byte b h = omega arith
