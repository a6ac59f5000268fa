-- ===== src/Queue/Memory.antt =====
-- A byte buffer as a function of the offset, and runs of bytes in it.
use libcsics.Base.{
  ℕ, zero, suc, ◌+◌, ◌≤◌, ◌<◌, ◌≡◌, refl, sym, ap, ap₂, ◌∙◌, ◌⊎◌, inl, inr, List, [], ◌∷◌, arith,
  ◌==◌, if◌then◌else◌, length, take, drop, ne→not-==, ==_refl,
}

abbrev pub Memory : Type 0
Memory = ℕ → ℕ

-- The n bytes from offset i on.
unfoldable pub load : Memory → ℕ → ℕ → List ℕ
load m i zero = []
load m i (suc n) = m i ∷ load m (suc i) n

-- `memcpy` of the bytes to offset i.
unfoldable pub store : Memory → ℕ → List ℕ → Memory
store m i [] k = m k
store m i (b ∷ bs) k = if k == i then b else store m (suc i) bs k

pub length-load : (m : Memory) (i n : ℕ) → length (load m i n) ≡ n
unfolding load
length-load m i zero = refl
length-load m i (suc n) = omega (arith, length-load m (suc i) n)

pub store_below : (m : Memory) (i k : ℕ) (bs : List ℕ) → k < i → store m i bs k ≡ m k
unfolding store
store_below m i k [] h = refl
store_below m i k (b ∷ bs) h =
    rw (ne→not-== k i (omega arith)) (store_below m (suc i) k bs (omega arith))

pub store_above : (m : Memory) (i k : ℕ) (bs : List ℕ) → i + length bs ≤ k → store m i bs k ≡ m k
unfolding store
store_above m i k [] h = refl
store_above m i k (b ∷ bs) h =
    rw (ne→not-== k i (omega arith)) (store_above m (suc i) k bs (omega arith))

-- Two memories that agree on a run load the same bytes from it.
load_cong :
    (m m' : Memory) (i n : ℕ)
    → ((k : ℕ) → i ≤ k → k < i + n → m k ≡ m' k)
    → load m i n ≡ load m' i n
unfolding load
load_cong m m' i zero h = refl
load_cong m m' i (suc n) h =
    ap₂ ◌∷◌ (h i (omega arith) (omega arith))
      (load_cong m m' (suc i) n (λ k p q. h k (omega arith) (omega arith)))

-- A run beside the bytes that were stored is as it was.
pub load-store_apart :
    (m : Memory) (i j n : ℕ) (bs : List ℕ)
    → (i + length bs ≤ j) ⊎ (j + n ≤ i)
    → load (store m i bs) j n ≡ load m j n
load-store_apart m i j n bs (inl above) =
    load_cong (store m i bs) m j n (λ k p q. store_above m i k bs (omega arith))
load-store_apart m i j n bs (inr below) =
    load_cong (store m i bs) m j n (λ k p q. store_below m i k bs (omega arith))

pub load-store_self : (m : Memory) (i : ℕ) (bs : List ℕ) → load (store m i bs) i (length bs) ≡ bs
unfolding load store
load-store_self m i [] = refl
load-store_self m i (b ∷ bs) = rw (==_refl i) (
    ap (◌∷◌ b) (
      load_cong (store m i (b ∷ bs)) (store m (suc i) bs) (suc i) (length bs)
        (λ k p q. rw (ne→not-== k i (omega arith)))
      ∙ load-store_self m (suc i) bs))

-- What is loaded from above the first byte of a stored run does not see that byte.
load-store_above :
    (m : Memory) (i j n b : ℕ) (bs : List ℕ)
    → i < j
    → load (store m i (b ∷ bs)) j n ≡ load (store m (suc i) bs) j n
unfolding store
load-store_above m i j n b bs h =
    load_cong (store m i (b ∷ bs)) (store m (suc i) bs) j n
      (λ k p q. rw (ne→not-== k i (omega arith)))

load-store_prefix :
    (m : Memory) (i n : ℕ) (bs : List ℕ) → n ≤ length bs → load (store m i bs) i n ≡ take n bs
unfolding load
load-store_prefix m i zero bs h = refl
load-store_prefix m i (suc n) [] h = absurd (omega arith)
load-store_prefix m i (suc n) (b ∷ bs) h = ap₂ ◌∷◌ (unfold store in rw (==_refl i)) (
    load-store_above m i (suc i) n b bs (omega arith)
    ∙ load-store_prefix m (suc i) n bs (omega arith))

-- A run inside stored bytes is the part of them that lies there.
pub load-store_inside :
    (m : Memory) (i j k n : ℕ) (bs : List ℕ)
    → j ≡ i + k
    → k + n ≤ length bs
    → load (store m i bs) j n ≡ take n (drop k bs)
load-store_inside m i j zero n bs e h =
    let e' : j ≡ i = omega arith in
    ap (λ a. load (store m i bs) a n) e' ∙ load-store_prefix m i n bs (omega arith)
load-store_inside m i j (suc k) n [] e h =
    let e' : n ≡ 0 = omega arith in rw e' (unfold load in refl)
load-store_inside m i j (suc k) n (b ∷ bs) e h =
    load-store_above m i j n b bs (omega arith)
    ∙ load-store_inside m (suc i) j k n bs (omega arith) (omega arith)

pub load-store_exact :
    (m : Memory) (i n : ℕ) (bs : List ℕ) → length bs ≡ n → load (store m i bs) i n ≡ bs
load-store_exact m i n bs h =
    ap (λ (k : ℕ). load (store m i bs) i k) (sym h) ∙ load-store_self m i bs
