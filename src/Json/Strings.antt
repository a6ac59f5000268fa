-- ===== src/Json/Strings.antt =====
-- A reader of JSON strings, and what it makes of the strings that the serializer writes.
use libcsics.Base.{
  ℕ, zero, suc, ◌+◌, ◌-◌, ◌*◌, ◌/◌, ◌%◌, ◌<◌, ◌≡◌, refl, ap, ◌∙◌, false, ◌==◌, ltb, leb, ◌||◌,
  if◌then◌else◌, List, [], ◌∷◌, ◌++◌, Option, none, some, arith, All, append_assoc, Bool-cases,
  Option-cases, inl, inr,
}
use libcsics.Json.Sink.{quote, backslash, hex, short_escape, escape_char, escape}

-- Outside an escape, behind a backslash, or with some digits of a `\u` escape to come.
pub data Place : Type 0 where
  plain escaped : Place
  digits : ℕ → ℕ → Place

abbrev letter : ℕ → Option ℕ
letter c =
    if c == quote || c == backslash || c == 47
    then some c
    else if c == 98
    then some 8
    else if c == 102
    then some 12
    else if c == 110
    then some 10
    else if c == 114
    then some 13
    else if c == 116
    then some 9
    else none

abbrev digit : ℕ → Option ℕ
digit c =
    if leb 48 c
    then if leb c 57
      then some (c - 48)
      else if leb 97 c
      then if leb c 102 then some (c - 87) else none
      else none
    else none

abbrev push : ℕ → Option (List ℕ × List ℕ) → Option (List ℕ × List ℕ)
push c none = none
push c (some (cs, rest)) = some (c ∷ cs, rest)

-- The code points up to the closing quote, and what is behind it.
pub read_string : Place → List ℕ → Option (List ℕ × List ℕ)
read_string place [] = none
read_string plain (c ∷ cs) =
    if c == quote
    then some ([], cs)
    else if c == backslash
    then read_string escaped cs
    else if ltb c 32
    then none
    else push c (read_string plain cs)
read_string escaped (c ∷ cs) = elim (letter c) [
  | some x ↦ push x (read_string plain cs)
  | none ↦ if c == 117 then read_string (digits 3 0) cs else none
]
read_string (digits zero value) (c ∷ cs) = elim (digit c) [
  | none ↦ none
  | some d ↦ push (value * 16 + d) (read_string plain cs)
]
read_string (digits (suc n) value) (c ∷ cs) = elim (digit c) [
  | none ↦ none
  | some d ↦ read_string (digits n (value * 16 + d)) cs
]

digit-hex : (n : ℕ) → n < 16 → digit (hex n) ≡ some n
digit-hex n h = ground arith

-- The four digits of an escape.
read_hex :
    (c : ℕ) (rest : List ℕ)
    → c < 256
    → read_string escaped (117 ∷ 48 ∷ 48 ∷ hex (c / 16 % 16) ∷ hex (c % 16) ∷ rest)
      ≡ push c (read_string plain rest)
unfolding read_string
read_hex c rest h =
    let whole : (0 * 16 + c / 16 % 16) * 16 + c % 16 ≡ c = omega arith in
    rw (digit-hex (c / 16 % 16) (omega arith), digit-hex (c % 16) (omega arith), whole) refl

short_escape-letter : (c x : ℕ) → short_escape c ≡ some x → letter x ≡ some c
short_escape-letter c x h = ground arith

-- A byte that is escaped by a letter or by its digits.
read_control :
    (c : ℕ) (rest : List ℕ)
    → c < 256
    → read_string plain (
        elim (short_escape c) [
          | some l ↦ backslash ∷ l ∷ []
          | none ↦ backslash ∷ 117 ∷ 48 ∷ 48 ∷ hex (c / 16 % 16) ∷ hex (c % 16) ∷ []
        ]
        ++ rest)
      ≡ push c (read_string plain rest)
unfolding read_string
read_control c rest h = elim (Option-cases (short_escape c)) [
  | inl long ↦ rw long (read_hex c rest h)
  | inr (x, short) ↦ rw (short, short_escape-letter c x short) refl
]

read_char :
    (c : ℕ) (rest : List ℕ)
    → c < 256
    → read_string plain (escape_char c ++ rest) ≡ push c (read_string plain rest)
unfolding read_string escape_char
read_char c rest h = elim (Bool-cases (c == backslash || c == quote)) [
  | inl special ↦ let itself : letter c ≡ some c = ground arith in rw (special, itself) refl
  | inr usual ↦ elim (Bool-cases (ltb c 32 || leb 128 c)) [
    | inl control ↦ rw (usual, control) (read_control c rest h)
    | inr printed ↦
        let no_quote : (c == quote) ≡ false = ground arith in
        let no_backslash : (c == backslash) ≡ false = ground arith in
        let no_control : ltb c 32 ≡ false = ground arith in
        rw (usual, printed, no_quote, no_backslash, no_control) refl
  ]
]

-- A reader of JSON takes every string of bytes that is written between quotes, up to its closing quote,
-- and finds each byte again as the code point of that number.
pub read_string-escape :
    (cs rest : List ℕ)
    → All (λ c. c < 256) cs
    → read_string plain (escape cs ++ (quote ∷ rest)) ≡ some (cs, rest)
unfolding read_string escape
read_string-escape [] rest h = refl
read_string-escape (c ∷ cs) rest (small, others) =
    ap (read_string plain) (append_assoc (escape_char c) (escape cs) (quote ∷ rest))
    ∙ read_char c (escape cs ++ (quote ∷ rest)) small
    ∙ ap (push c) (read_string-escape cs rest others)
