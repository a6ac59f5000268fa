-- ===== src/Wire.antt =====
-- include/csics/Bit.hpp (byteswap, endian) and include/csics/serialization/DirectSerializer.hpp,
-- on a little-endian host. A byte is a number below 256; an object of n bytes, a float or a double
-- included, is the number of its bit pattern.
pub mod Bytes
pub mod Reads
pub mod Writes
pub mod Exact
mod Tests
use libcsics.Base.{
  ℕ, zero, suc, ◌+◌, ◌-◌, ◌*◌, ◌/◌, ◌%◌, Bool, List, [], ◌∷◌, ◌++◌, reverse, Option, none, some,
  ltb, if◌then◌else◌, length, take, drop, replicate,
}

-- The bytes of an n-byte object in memory, lowest first.
abbrev pub le_bytes : ℕ → ℕ → List ℕ
le_bytes zero v = []
le_bytes (suc n) v = (v % 256) ∷ le_bytes n (v / 256)

-- The object that bytes in memory stand for.
abbrev pub of_bytes : List ℕ → ℕ
of_bytes [] = 0
of_bytes (b ∷ bs) = b + 256 * of_bytes bs

-- `byteswap` of an n-byte object.
pub byteswap : ℕ → ℕ → ℕ
byteswap n v = of_bytes (reverse (le_bytes n v))

-- `endian<T, std::endian::big>::from_native`: the representation of a native value.
pub from_native : ℕ → ℕ → ℕ
from_native n v = byteswap n v

-- `endian<T, std::endian::big>::native`: the value of a representation.
pub to_native : ℕ → ℕ → ℕ
to_native n repr = byteswap n repr

-- What `s.write` copies for an n-byte object, and for a `be<T>` of n bytes.
pub raw : ℕ → ℕ → List ℕ
raw n v = le_bytes n v

pub be : ℕ → ℕ → List ℕ
unfolding from_native
be n v = le_bytes n (from_native n v)

pub zeros : ℕ → List ℕ
zeros n = replicate n 0

-- A `MutableBufferView` as a cursor: what was written before it, and the bytes left behind it.
pub record View : Type 0 where
  pub written : List ℕ
  pub room : ℕ

-- `SerializationStatus`.
pub data Status : Type 0 where
  ok buffer_full non_fatal_error failed : Status

-- `DirectSerializer::write` and `pad` of the given bytes: all of them or, when they do not fit, none.
pub write : View → List ℕ → View × Status
write v bytes =
    if ltb v.room (length bytes)
    then (v, buffer_full)
    else (record { written = v.written ++ bytes; room = v.room - length bytes }, ok)

-- A row of `s.write` and `s.pad` statements: the status of each is dropped.
pub emit : View → List (List ℕ) → View
emit v [] = v
emit v (bytes ∷ rest) = emit (write v bytes).0 rest

-- A `DirectDeserializer` step: the value or an error, and the bytes that are left.
abbrev pub Reader {ℓ} : Type ℓ → Type ℓ
Reader A = List ℕ → Option A × List ℕ

-- `read<T>` of n bytes; a failed read leaves the cursor where it was.
pub read : ℕ → Reader ℕ
read n bs = if ltb (length bs) n then (none, bs) else (some (of_bytes (take n bs)), drop n bs)

-- `read<be<T>>` followed by `native()`.
pub read_be : ℕ → Reader ℕ
unfolding read to_native
read_be n bs =
    let (v, rest) = read n bs in
    (elim v [ none ↦ none | some repr ↦ some (to_native n repr) ], rest)

-- `skip`; its result is ignored wherever it is called.
pub skip : ℕ → Reader (Unit {0})
skip n bs = if ltb (length bs) n then (none, bs) else (some tt, drop n bs)

-- `std::ignore = d.read…`: the cursor moves if it can, and there is no error.
pub ignore {ℓ} : {A : Type ℓ} → Reader A → Reader (Unit {0})
ignore r bs = (some tt, (r bs).1)

-- `auto a = …; auto b = …; if (!a || !b) return unexpect;`: both run, whatever the first returns.
abbrev apply_both {ℓ κ} : {A : Type ℓ} {B : Type κ} → Option (A → B) → Option A → Option B
apply_both none a = none
apply_both (some f) none = none
apply_both (some f) (some a) = some (f a)

infixl 60 ◌<*>◌ ◌<*◌
unfoldable pub ◌<*>◌ {ℓ κ} : {A : Type ℓ} {B : Type κ} → Reader (A → B) → Reader A → Reader B
◌<*>◌ rf ra bs = let (f, s) = rf bs in let (a, t) = ra s in (apply_both f a, t)

unfoldable pub ◌<*◌ {ℓ} : {A : Type ℓ} → Reader A → Reader (Unit {0}) → Reader A
◌<*◌ ra ru bs = let (a, s) = ra bs in (a, (ru s).1)

unfoldable pub pure {ℓ} : {A : Type ℓ} → A → Reader A
pure a bs = (some a, bs)

-- An early `return unexpect`.
infixl 5 ◌>>=◌
unfoldable pub ◌>>=◌ {ℓ κ} : {A : Type ℓ} {B : Type κ} → Reader A → (A → Reader B) → Reader B
◌>>=◌ m f bs = let (a, s) = m bs in elim a [ none ↦ (none, s) | some x ↦ f x s ]

-- `for (i = 0; i < n; ++i) { auto x = …; if (!x) return unexpect; xs.push_back(*x); }`
pub read_many {ℓ} : {A : Type ℓ} → ℕ → Reader A → Reader (List A)
read_many zero r = pure []
read_many (suc n) r = r >>= λ x. read_many n r >>= λ xs. pure (x ∷ xs)
