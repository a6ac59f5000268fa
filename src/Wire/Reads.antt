-- ===== src/Wire/Reads.antt =====
-- How a reader runs on a row of written pieces: it takes its own and leaves the others.
use libcsics.Base.{
  ℕ, zero, suc, ◌+◌, ◌^◌, ◌<◌, ◌≡◌, refl, ap, ◌∙◌, List, [], ◌∷◌, ◌++◌, Option, none, some, arith,
  length, length-append, length-replicate, replicate, take-append, drop-append, le→not-ltb, All,
}
use libcsics.Wire.{
  le_bytes, of_bytes, raw, be, zeros, Reader, read, read_be, skip, ignore, ◌<*>◌, ◌<*◌, pure, ◌>>=◌,
  read_many,
}
use libcsics.Wire.Bytes.{length-le_bytes, of_bytes-le_bytes, length-be, to_native-of_bytes-be}

-- The bytes of the pieces, followed by `rest`.
abbrev pub stream : List (List ℕ) → List ℕ → List ℕ
stream [] rest = rest
stream (c ∷ cs) rest = c ++ stream cs rest

-- From the bytes `s` the reader gives `a` and leaves `t`.
pub record Runs {ℓ} {A : Type ℓ} (r : Reader A) (s : List ℕ) (a : A) (t : List ℕ) : Type ℓ where
  pub gives : r s ≡ (some a, t)

pub stream-append :
    (cs ds : List (List ℕ)) (rest : List ℕ) → stream (cs ++ ds) rest ≡ stream cs (stream ds rest)
stream-append [] ds rest = refl
stream-append (c ∷ cs) ds rest = ap (◌++◌ c) (stream-append cs ds rest)

module _ {ℓ κ} {A : Type ℓ} {B : Type κ} where
  pub Runs-ap :
      {rf : Reader (A → B)} {ra : Reader A} {s t u : List ℕ} {f : A → B} {a : A}
      → Runs rf s f t
      → Runs ra t a u
      → Runs (rf <*> ra) s (f a) u
  unfolding ◌<*>◌
  Runs-ap hf ha = record { gives = rw (hf.gives, ha.gives) }

  -- What `>>=` does with the outcome of its first reader.
  abbrev continue : (A → Reader B) → Option A × List ℕ → Option B × List ℕ
  continue k (a, s) = elim a [ none ↦ (none, s) | some x ↦ k x s ]

  pub Runs-bind :
      {m : Reader A} (k : A → Reader B) {s t u : List ℕ} {a : A} {b : B}
      → Runs m s a t
      → Runs (k a) t b u
      → Runs (m >>= k) s b u
  unfolding ◌>>=◌
  Runs-bind k hm hk = record { gives = ap (continue k) hm.gives ∙ hk.gives }

module _ {ℓ} {A : Type ℓ} where
  pub Runs-skip :
      {ra : Reader A} {ru : Reader (Unit {0})} {s t u : List ℕ} {a : A}
      → Runs ra s a t
      → Runs ru t tt u
      → Runs (ra <* ru) s a u
  unfolding ◌<*◌
  Runs-skip ha hu = record { gives = rw (ha.gives, hu.gives) }

  pub Runs-pure : (a : A) (s : List ℕ) → Runs (pure a) s a s
  unfolding pure
  Runs-pure a s = record { gives = refl }

pub read-append :
    (n : ℕ) (c rest : List ℕ) → length c ≡ n → read n (c ++ rest) ≡ (some (of_bytes c), rest)
unfolding read
read-append n c rest h = rw (
  le→not-ltb (length (c ++ rest)) n (omega (arith, length-append c rest)),
  take-append n c rest h,
  drop-append n c rest h,
)

pub Runs-read : (n v : ℕ) (rest : List ℕ) → v < 256 ^ n → Runs (read n) (raw n v ++ rest) v rest
unfolding raw
Runs-read n v rest h = record {
  gives =
      read-append n (le_bytes n v) rest (length-le_bytes n v)
      ∙ ap (λ k. (some k, rest)) (of_bytes-le_bytes n v h);
}

pub Runs-read_be :
    (n v : ℕ) (rest : List ℕ) → v < 256 ^ n → Runs (read_be n) (be n v ++ rest) v rest
unfolding read_be
Runs-read_be n v rest h = record {
  gives =
      rw (read-append n (be n v) rest (length-be n v))
        (ap (λ k. (some k, rest)) (to_native-of_bytes-be n v h));
}

pub length-zeros : (n : ℕ) → length (zeros n) ≡ n
unfolding zeros
length-zeros n = length-replicate n 0

pub zeros-append : (n m : ℕ) (bs : List ℕ) → zeros (n + m) ++ bs ≡ zeros n ++ (zeros m ++ bs)
unfolding zeros
zeros-append zero m bs = let e : 0 + m ≡ m = omega arith in ap (λ k. replicate k 0 ++ bs) e
zeros-append (suc n) m bs =
    let e : suc n + m ≡ suc (n + m) = omega arith in
    ap (λ k. replicate k 0 ++ bs) e ∙ ap (◌∷◌ 0) (zeros-append n m bs)

pub Runs-ignore-read : (n : ℕ) (rest : List ℕ) → Runs (ignore (read n)) (zeros n ++ rest) tt rest
unfolding ignore zeros
Runs-ignore-read n rest = record { gives = rw (read-append n (zeros n) rest (length-zeros n)) }

pub Runs-ignore-skip : (n : ℕ) (rest : List ℕ) → Runs (ignore (skip n)) (zeros n ++ rest) tt rest
unfolding ignore zeros skip
Runs-ignore-skip n rest = record {
  gives = rw (
    le→not-ltb (length (zeros n ++ rest)) n
        (omega (arith, length-append (zeros n) rest, length-zeros n)),
    drop-append n (zeros n) rest (length-zeros n),
  );
}

-- A loop over pieces that belong to the elements of a list.
module _ {ℓ} {A : Type ℓ} (chunks : A → List (List ℕ)) where
  abbrev pub all_chunks : List A → List (List ℕ)
  all_chunks [] = []
  all_chunks (x ∷ xs) = chunks x ++ all_chunks xs

  pub Runs-read_many {κ} :
      (r : Reader A) (P : A → Type κ)
      → ((x : A) → P x → (rest : List ℕ) → Runs r (stream (chunks x) rest) x rest)
      → (xs : List A) → All P xs
      → (rest : List ℕ) → Runs (read_many (length xs) r) (stream (all_chunks xs) rest) xs rest
  unfolding read_many
  Runs-read_many r P each [] h rest = Runs-pure [] rest
  Runs-read_many r P each (x ∷ xs) h rest = rw (stream-append (chunks x) (all_chunks xs) rest) (
      Runs-bind _ (each x h.0 (stream (all_chunks xs) rest))
        (Runs-bind _ (Runs-read_many r P each xs h.1 rest) (Runs-pure (x ∷ xs) rest)))
