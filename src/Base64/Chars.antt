-- ===== src/Base64/Chars.antt =====
-- The masks and shifts of get_4_chars and of the padding, as the digits of RFC 4648.
use libcsics.Base.{
  ℕ, ◌+◌, ◌*◌, ◌/◌, ◌%◌, ◌<◌, ◌≡◌, refl, sym, ap₂, ◌∙◌, [], ◌∷◌, arith, bit_and, bit_or,
}
use libcsics.Base.Tables.{same_below, eq_of_same_below}
use libcsics.Base64.{char_of, second_index, third_index, get_4_chars, pad_1, pad_2}
use libcsics.Base64.Standard.{IsByte, digit_char, quad, bits24, padded}

char_of_lem : (d : ℕ) → d < 64 → char_of d ≡ digit_char d
unfolding same_below char_of digit_char
char_of_lem d h = eq_of_same_below char_of digit_char 64 d refl h

low_2 : (b : ℕ) → IsByte b → bit_and b 0b11 ≡ b % 4
unfolding same_below
low_2 b h = eq_of_same_below (λ x. bit_and x 0b11) (λ x. x % 4) 256 b refl h

low_4 : (b : ℕ) → IsByte b → bit_and b 0b1111 ≡ b % 16
unfolding same_below
low_4 b h = eq_of_same_below (λ x. bit_and x 0b1111) (λ x. x % 16) 256 b refl h

low_6 : (b : ℕ) → IsByte b → bit_and b 0b111111 ≡ b % 64
unfolding same_below
low_6 b h = eq_of_same_below (λ x. bit_and x 0b111111) (λ x. x % 64) 256 b refl h

high_4 : (b : ℕ) → IsByte b → bit_and b 0b11110000 / 16 ≡ b / 16
unfolding same_below
high_4 b h = eq_of_same_below (λ x. bit_and x 0b11110000 / 16) (λ x. x / 16) 256 b refl h

high_2 : (b : ℕ) → IsByte b → bit_and b 0b11000000 / 64 ≡ b / 64
unfolding same_below
high_2 b h = eq_of_same_below (λ x. bit_and x 0b11000000 / 64) (λ x. x / 64) 256 b refl h

-- The two fields of an index do not overlap.
or_16 : (x y : ℕ) → x < 4 → y < 16 → bit_or (x * 16) y ≡ x * 16 + y
unfolding same_below
or_16 x y hx hy =
    let e : (x * 16 + y) / 16 ≡ x = omega arith in
    let f : (x * 16 + y) % 16 ≡ y = omega arith in
    ap₂ (λ s t. bit_or (s * 16) t) (sym e) (sym f)
    ∙ eq_of_same_below (λ n. bit_or (n / 16 * 16) (n % 16)) (λ n. n) 64 (x * 16 + y) refl
        (omega arith)

or_4 : (x y : ℕ) → x < 16 → y < 4 → bit_or (x * 4) y ≡ x * 4 + y
unfolding same_below
or_4 x y hx hy =
    let e : (x * 4 + y) / 4 ≡ x = omega arith in
    let f : (x * 4 + y) % 4 ≡ y = omega arith in
    ap₂ (λ s t. bit_or (s * 4) t) (sym e) (sym f)
    ∙ eq_of_same_below (λ n. bit_or (n / 4 * 4) (n % 4)) (λ n. n) 64 (x * 4 + y) refl (omega arith)

second_index_lem : (a b : ℕ) → IsByte a → IsByte b → second_index a b ≡ a % 4 * 16 + b / 16
unfolding second_index
second_index_lem a b ha hb =
    rw (low_2 a ha, high_4 b hb) (or_16 (a % 4) (b / 16) (omega arith) (omega arith))

third_index_lem : (b c : ℕ) → IsByte b → IsByte c → third_index b c ≡ b % 16 * 4 + c / 64
unfolding third_index
third_index_lem b c hb hc =
    rw (low_4 b hb, high_2 c hc) (or_4 (b % 16) (c / 64) (omega arith) (omega arith))

four_digits :
    {p q r s p' q' r' s' : ℕ}
    → p ≡ p'
    → q ≡ q'
    → r ≡ r'
    → s ≡ s'
    → digit_char p ∷ digit_char q ∷ digit_char r ∷ digit_char s ∷ []
      ≡ digit_char p' ∷ digit_char q' ∷ digit_char r' ∷ digit_char s' ∷ []
four_digits e f g h = cc

-- get_4_chars gives the four digits of three bytes.
pub get_4_chars-quad :
    (a b c : ℕ) → IsByte a → IsByte b → IsByte c → get_4_chars a b c ≡ quad (bits24 a b c)
unfolding get_4_chars quad bits24
get_4_chars-quad a b c ha hb hc =
    rw
      (
        low_6 c hc,
        second_index_lem a b ha hb,
        third_index_lem b c hb hc,
        char_of_lem (a / 4) (omega arith),
        char_of_lem (a % 4 * 16 + b / 16) (omega arith),
        char_of_lem (b % 16 * 4 + c / 64) (omega arith),
        char_of_lem (c % 64) (omega arith),
      )
      (four_digits (omega arith) (omega arith) (omega arith) (omega arith))

pub pad_1-padded : (a : ℕ) → IsByte a → pad_1 a ≡ padded (a ∷ [])
unfolding pad_1 padded
pad_1-padded a ha =
    rw (low_2 a ha, char_of_lem (a / 4) (omega arith), char_of_lem (a % 4 * 16) (omega arith))

pub pad_2-padded : (a b : ℕ) → IsByte a → IsByte b → pad_2 a b ≡ padded (a ∷ b ∷ [])
unfolding pad_2 padded
pad_2-padded a b ha hb = rw (
  low_4 b hb,
  second_index_lem a b ha hb,
  char_of_lem (a / 4) (omega arith),
  char_of_lem (a % 4 * 16 + b / 16) (omega arith),
  char_of_lem (b % 16 * 4) (omega arith),
)
