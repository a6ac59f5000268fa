-- ===== src/Net/Uri.antt =====
-- `URI::from` of include/csics/io/net/NetTypes.hpp. A text is its bytes, and an iterator into it the
-- offset; a view is an offset and a size, which nothing keeps inside the text. `std::stoi` is a
-- parameter: none where it throws, and otherwise the bits of the number.
pub mod Scan
pub mod Parts
pub mod Errors
use libcsics.Base.{
  ℕ, suc, ◌+◌, ◌-◌, ◌^◌, ◌%◌, Bool, true, false, ◌&&◌, ◌||◌, not, List, [], ◌∷◌, Option, none, some,
  ◌==◌, if◌then◌else◌, length, take, drop,
}

-- What a call does: it returns a value, or a null option, or throws, or its behaviour is undefined.
pub data Result (A : Type 0) : Type 0 where
  ok : A → Result A
  null_option : Result A
  throws : Result A
  undefined : Result A

infixl 5 ◌>>=◌
abbrev pub ◌>>=◌ : {A B : Type 0} → Result A → (A → Result B) → Result B
ok a >>= f = f a
null_option >>= f = null_option
throws >>= f = throws
undefined >>= f = undefined

pub data State : Type 0 where
  scheme host port path : State

abbrev pub View : Type 0
View = ℕ × ℕ

-- `URI`.
pub record Uri : Type 0 where
  pub uri : List ℕ
  pub scheme_view : View
  pub host_view : View
  pub path_view : View
  pub port_number : ℕ

-- The variables of the loop. `skip` is how far the cursor is ahead of the byte that is looked at.
pub record Cursor : Type 0 where
  pub state : State
  pub skip : ℕ
  pub scheme_end : ℕ
  pub host_end : ℕ
  pub port_end : ℕ

-- `StringView(cursor, 3) != "://"`, which reads three bytes; the colon is the first of them.
abbrev pub after_colon : ℕ → List ℕ → Cursor → Result Cursor
after_colon pos [] c = undefined
after_colon pos (x ∷ []) c = undefined
after_colon pos (x ∷ y ∷ rest) c =
    if (x == b'/') && (y == b'/')
    then ok (record c { state = host; skip = 3; scheme_end = pos })
    else null_option

-- The body of the loop at the byte `x`, with the bytes behind it.
abbrev pub switch : State → ℕ → ℕ → List ℕ → Cursor → Result Cursor
switch scheme pos x rest c = if x == b':' then after_colon pos rest c else ok c
switch host pos x rest c =
    if x == b':'
    then ok (record c { state = port; host_end = pos })
    else if x == b'/'
    then ok (record c { state = path; host_end = pos })
    else ok c
switch port pos x rest c =
    if x == b'/' then ok (record c { state = path; port_end = pos }) else ok c
switch path pos x rest c = ok c

abbrev pub step : ℕ → ℕ → List ℕ → Cursor → Result Cursor
step pos x rest c =
    if c.skip == 0 then switch c.state pos x rest c else ok (record c { skip = c.skip - 1 })

-- The loop. A cursor that is ahead of the end never meets it.
pub scan : List ℕ → ℕ → Cursor → Result Cursor
scan [] pos c = if c.skip == 0 then ok c else undefined
scan (x ∷ rest) pos c = step pos x rest c >>= λ c'. scan rest (suc pos) c'

abbrev pub is_port : State → Bool
is_port port = true
is_port _ = false

abbrev pub is_path : State → Bool
is_path path = true
is_path _ = false

module _ (stoi : List ℕ → Option ℕ) where
  abbrev pub as_port : Option ℕ → Result ℕ
  as_port none = throws
  as_port (some n) = ok (n % 2 ^ 16)

  -- The port: `std::stoi(std::string(host_end + 1, port_end))`.
  abbrev pub read_port : List ℕ → Cursor → Result ℕ
  read_port text c =
      if not (c.port_end == length text) || is_port c.state
      then as_port (stoi (take (c.port_end - (c.host_end + 1)) (drop (c.host_end + 1) text)))
      else ok 0

  abbrev pub path_of : List ℕ → Cursor → ℕ → View
  path_of text c n =
      if is_path c.state
      then (if n == 0
          then (c.host_end + 1, length text - c.host_end)
          else (c.port_end + 1, length text - c.port_end))
      else (0, 0)

  -- The views, once the loop is done.
  abbrev pub finish : List ℕ → Cursor → Result Uri
  finish text c = read_port text c >>= λ n. ok (record {
    uri = text;
    scheme_view = (0, c.scheme_end);
    host_view = (c.scheme_end + 3, (c.host_end + 2 ^ 64 - (c.scheme_end + 3)) % 2 ^ 64);
    path_view = path_of text c n;
    port_number = n;
  })

  -- `URI::from`.
  pub from : List ℕ → Result Uri
  from text =
      let end = length text in
      scan text 0
        (record { state = scheme; skip = 0; scheme_end = end; host_end = end; port_end = end })
      >>= finish text
