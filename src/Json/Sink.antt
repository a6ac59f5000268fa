-- ===== src/Json/Sink.antt =====
-- The serializer's stack and the view that it writes to. A write past the end of the view, or a read
-- in front of what was written, is none: the source checks neither.
use libcsics.Base.{
  ℕ, ◌+◌, ◌-◌, ◌/◌, ◌%◌, ltb, leb, ◌==◌, ◌||◌, if◌then◌else◌, List, [], ◌∷◌, ◌++◌, Option, none,
  some,
}

abbrev pub quote : ℕ
quote = 34

abbrev pub backslash : ℕ
backslash = 92

abbrev pub comma : ℕ
comma = 44

abbrev pub colon : ℕ
colon = 58

abbrev pub open_brace : ℕ
open_brace = 123

abbrev pub close_brace : ℕ
close_brace = 125

abbrev pub open_bracket : ℕ
open_bracket = 91

abbrev pub close_bracket : ℕ
close_bracket = 93

pub data JsonState : Type 0 where
  array object : JsonState

-- What was written, the last byte first, and the bytes left behind it.
pub record Sink : Type 0 where
  pub stack : List JsonState
  pub before : List ℕ
  pub room : ℕ

infixl 5 ◌>>=◌
abbrev pub ◌>>=◌ {ℓ κ} : {A : Type ℓ} {B : Type κ} → Option A → (A → Option B) → Option B
none >>= f = none
some a >>= f = f a

-- `bv[0] = c; bv += 1;`.
unfoldable pub put : ℕ → Sink → Option Sink
put c s = if s.room == 0 then none else some (record s { before = c ∷ s.before; room = s.room - 1 })

unfoldable pub put_all : List ℕ → Sink → Option Sink
put_all [] s = some s
put_all (c ∷ cs) s = put c s >>= λ t. put_all cs t

-- What is written for one byte, `char` being signed.
abbrev pub hex : ℕ → ℕ
hex n = if ltb n 10 then n + 48 else n + 87

abbrev pub short_escape : ℕ → Option ℕ
short_escape c =
    if c == 8
    then some 98
    else if c == 12
    then some 102
    else if c == 10
    then some 110
    else if c == 13
    then some 114
    else if c == 9
    then some 116
    else none

unfoldable pub escape_char : ℕ → List ℕ
escape_char c =
    if c == backslash || c == quote
    then backslash ∷ c ∷ []
    else if ltb c 32 || leb 128 c
    then elim (short_escape c) [
      | some letter ↦ backslash ∷ letter ∷ []
      | none ↦ backslash ∷ 117 ∷ 48 ∷ 48 ∷ hex (c / 16 % 16) ∷ hex (c % 16) ∷ []
    ]
    else c ∷ []

unfoldable pub escape : List ℕ → List ℕ
escape [] = []
escape (c ∷ cs) = escape_char c ++ escape cs
