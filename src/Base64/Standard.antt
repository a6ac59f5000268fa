-- ===== src/Base64/Standard.antt =====
-- Base64 as RFC 4648 defines it: 24 bits as four digits of six, and a decoder. It shares nothing
-- with the encoder but the alphabet's characters.
use libcsics.Base.{
  ℕ, ◌+◌, ◌-◌, ◌*◌, ◌/◌, ◌%◌, ◌≡◌, ◌<◌, refl, ap, ap₂, ◌∙◌, Bool, List, [], ◌∷◌, ◌++◌, Option, none,
  some, arith, ltb, leb, ◌==◌, if◌then◌else◌, All, append_assoc,
}

-- The character of a digit.
unfoldable pub digit_char : ℕ → ℕ
digit_char d =
    if ltb d 26
    then d + 65
    else (if ltb d 52 then d + 71 else (if ltb d 62 then d - 4 else (if d == 62 then 43 else 47)))

-- The digit of a character.
unfoldable pub char_digit : ℕ → ℕ
char_digit c =
    if leb 97 c
    then c - 71
    else (if leb 65 c then c - 65 else (if leb 48 c then c + 4 else (if c == 43 then 62 else 63)))

-- The first n of the four digits of 24 bits.
unfoldable pub quad : ℕ → List ℕ
quad n =
    digit_char (n / 262144)
    ∷ digit_char (n / 4096 % 64)
    ∷ digit_char (n / 64 % 64)
    ∷ digit_char (n % 64)
    ∷ []

unfoldable pub bits24 : ℕ → ℕ → ℕ → ℕ
bits24 a b c = a * 65536 + b * 256 + c

-- The full groups of three bytes, what is left, and its padded form.
abbrev pub groups : List ℕ → List ℕ
groups (a ∷ b ∷ c ∷ rest) = quad (bits24 a b c) ++ groups rest
groups (a ∷ b ∷ []) = []
groups (a ∷ []) = []
groups [] = []

abbrev pub leftover : List ℕ → List ℕ
leftover (a ∷ b ∷ c ∷ rest) = leftover rest
leftover (a ∷ b ∷ []) = a ∷ b ∷ []
leftover (a ∷ []) = a ∷ []
leftover [] = []

unfoldable pub padded : List ℕ → List ℕ
padded [] = []
padded (a ∷ []) = digit_char (a / 4) ∷ digit_char (a % 4 * 16) ∷ 61 ∷ 61 ∷ []
padded (a ∷ b ∷ rest) =
    digit_char (a / 4) ∷ digit_char (a % 4 * 16 + b / 16) ∷ digit_char (b % 16 * 4) ∷ 61 ∷ []

unfoldable pub base64 : List ℕ → List ℕ
base64 xs = groups xs ++ padded (leftover xs)

-- The bytes of one group of four characters.
unfoldable pub decode_group : ℕ → ℕ → ℕ → ℕ → List ℕ
decode_group p q r s =
    let d1 = char_digit p in
    let d2 = char_digit q in
    let d3 = char_digit r in
    let d4 = char_digit s in
    if r == 61
    then (d1 * 4 + d2 / 16) ∷ []
    else (if s == 61
        then (d1 * 4 + d2 / 16) ∷ (d2 % 16 * 16 + d3 / 4) ∷ []
        else (d1 * 4 + d2 / 16) ∷ (d2 % 16 * 16 + d3 / 4) ∷ (d3 % 4 * 64 + d4) ∷ [])

pub decode : List ℕ → Option (List ℕ)
decode (p ∷ q ∷ r ∷ s ∷ rest) = elim (decode rest) [
  | none ↦ none
  | some xs ↦ some (decode_group p q r s ++ xs)
]
decode [] = some []
decode _ = none

abbrev pub IsByte : ℕ → Type 0
IsByte b = b < 256

-- A group decodes to its bytes; `digit_char` of a digit is never the padding character.
char_digit-digit_char : (d : ℕ) → d < 64 → char_digit (digit_char d) ≡ d
unfolding char_digit digit_char
char_digit-digit_char d h = ground arith

digit_char-ne-pad : (d : ℕ) → d < 64 → (digit_char d == 61) ≡ Bool.false
unfolding digit_char
digit_char-ne-pad d h = ground arith

-- Four digits without padding hold three bytes.
decode_group_digits :
    (p q r s : ℕ)
    → p < 64
    → q < 64
    → r < 64
    → s < 64
    → decode_group (digit_char p) (digit_char q) (digit_char r) (digit_char s)
      ≡ (p * 4 + q / 16) ∷ (q % 16 * 16 + r / 4) ∷ (r % 4 * 64 + s) ∷ []
unfolding decode_group
decode_group_digits p q r s hp hq hr hs = rw (
  digit_char-ne-pad r hr,
  digit_char-ne-pad s hs,
  char_digit-digit_char p hp,
  char_digit-digit_char q hq,
  char_digit-digit_char r hr,
  char_digit-digit_char s hs,
)

-- Three digits hold two bytes, and two digits one.
decode_group_pad_2 :
    (a b : ℕ) → IsByte a → IsByte b → decode (padded (a ∷ b ∷ [])) ≡ some (a ∷ b ∷ [])
unfolding decode padded decode_group
decode_group_pad_2 a b ha hb =
    rw
      (
        digit_char-ne-pad (b % 16 * 4) (omega arith),
        char_digit-digit_char (a / 4) (omega arith),
        char_digit-digit_char (a % 4 * 16 + b / 16) (omega arith),
        char_digit-digit_char (b % 16 * 4) (omega arith),
      )
      (ap₂ (λ x y. some (x ∷ y ∷ [])) (omega arith) (omega arith))

decode_group_pad_1 : (a : ℕ) → IsByte a → decode (padded (a ∷ [])) ≡ some (a ∷ [])
unfolding decode padded decode_group
decode_group_pad_1 a ha =
    rw
      (
        char_digit-digit_char (a / 4) (omega arith),
        char_digit-digit_char (a % 4 * 16) (omega arith),
      )
      (ap (λ x. some (x ∷ [])) (omega arith))

decode_group_quad :
    (a b c : ℕ)
    → IsByte a
    → IsByte b
    → IsByte c
    → decode_group
        (digit_char (bits24 a b c / 262144))
        (digit_char (bits24 a b c / 4096 % 64))
        (digit_char (bits24 a b c / 64 % 64))
        (digit_char (bits24 a b c % 64))
      ≡ a ∷ b ∷ c ∷ []
unfolding bits24
decode_group_quad a b c ha hb hc =
    decode_group_digits _ _ _ _ (omega arith) (omega arith) (omega arith) (omega arith)
    ∙ ground arith

decode-quad :
    (a b c : ℕ) (xs ys : List ℕ)
    → IsByte a
    → IsByte b
    → IsByte c
    → decode xs ≡ some ys
    → decode (quad (bits24 a b c) ++ xs) ≡ some (a ∷ b ∷ c ∷ ys)
unfolding decode quad
decode-quad a b c xs ys ha hb hc e = rw (e, decode_group_quad a b c ha hb hc)

-- The decoder gives back the bytes that were encoded.
pub decode-base64 : (xs : List ℕ) → All IsByte xs → decode (base64 xs) ≡ some xs
unfolding base64
decode-base64 (a ∷ b ∷ c ∷ rest) h =
    ap decode (append_assoc (quad (bits24 a b c)) (groups rest) (padded (leftover rest)))
    ∙ decode-quad a b c _ _ h.0 h.1.0 h.1.1.0 (decode-base64 rest h.1.1.1)
decode-base64 (a ∷ b ∷ []) h = decode_group_pad_2 a b h.0 h.1.0
decode-base64 (a ∷ []) h = decode_group_pad_1 a h.0
decode-base64 [] h = unfold decode padded in refl
