-- ===== src/Buffer/Cells.antt =====
-- The cells of an allocation, and the loops over them.
use libcsics.Base.{
  ℕ, zero, suc, ◌+◌, ◌-◌, ◌≤◌, ◌<◌, ◌≡◌, refl, ap, ap₂, sym, ◌∙◌, List, [], ◌∷◌, ◌++◌, Option, none,
  some, length, get_elem?, set, take, drop, arith, append_assoc, append-nil, length-set,
}

module _ {ℓ} {A : Type ℓ} where
  -- `uninitialized_copy` or `memcpy` of the values to the cells from i on.
  unfoldable pub copy_to : List A → ℕ → List A → List A
  copy_to cells i [] = cells
  copy_to cells i (x ∷ xs) = copy_to (set cells i x) (suc i) xs

  abbrev pub assign : List A → ℕ → Option A → List A
  assign cells i none = cells
  assign cells i (some x) = set cells i x

  -- `for (; src != end(); ++src, ++dest) *dest = std::move(*src);` with n elements to go.
  pub move_down : ℕ → ℕ → ℕ → List A → List A
  move_down zero dest src cells = cells
  move_down (suc n) dest src cells =
      move_down n (suc dest) (suc src) (assign cells dest (get_elem? cells src))

  pub length-assign :
      (cells : List A) (i : ℕ) (o : Option A) → length (assign cells i o) ≡ length cells
  length-assign cells i none = refl
  length-assign cells i (some x) = length-set cells i x

  pub length-copy_to :
      (cells : List A) (i : ℕ) (xs : List A) → length (copy_to cells i xs) ≡ length cells
  unfolding copy_to
  length-copy_to cells i [] = refl
  length-copy_to cells i (x ∷ xs) = length-copy_to (set cells i x) (suc i) xs ∙ length-set cells i x

  pub length-move_down :
      (n dest src : ℕ) (cells : List A) → length (move_down n dest src cells) ≡ length cells
  unfolding move_down
  length-move_down zero dest src cells = refl
  length-move_down (suc n) dest src cells =
      length-move_down n (suc dest) (suc src) (assign cells dest (get_elem? cells src))
      ∙ length-assign cells dest (get_elem? cells src)

  -- The first cells up to the one that was set.
  pub take-set_end :
      (cells : List A) (i : ℕ) (x : A)
      → i < length cells
      → take (suc i) (set cells i x) ≡ take i cells ++ (x ∷ [])
  take-set_end [] i x h = absurd (omega arith)
  take-set_end (c ∷ cells) zero x h = refl
  take-set_end (c ∷ cells) (suc i) x h = ap (◌∷◌ c) (take-set_end cells i x (omega arith))

  pub take-copy_to :
      (cells : List A) (i : ℕ) (xs : List A)
      → i + length xs ≤ length cells
      → take (i + length xs) (copy_to cells i xs) ≡ take i cells ++ xs
  unfolding copy_to
  take-copy_to cells i [] h =
      ap (λ (n : ℕ). take n cells) (omega arith) ∙ sym (append-nil (take i cells))
  take-copy_to cells i (x ∷ xs) h =
      ap (λ (n : ℕ). take n (copy_to (set cells i x) (suc i) xs)) (omega arith)
      ∙ take-copy_to (set cells i x) (suc i) xs (omega (arith, length-set cells i x))
      ∙ ap (λ ys. ys ++ xs) (take-set_end cells i x (omega arith))
      ∙ append_assoc (take i cells) (x ∷ []) xs

  drop-set : (cells : List A) (i n : ℕ) (x : A) → i < n → drop n (set cells i x) ≡ drop n cells
  drop-set [] i n x h = refl
  drop-set (c ∷ cells) i zero x h = absurd (omega arith)
  drop-set (c ∷ cells) zero (suc n) x h = refl
  drop-set (c ∷ cells) (suc i) (suc n) x h = drop-set cells i n x (omega arith)

  -- The cell at n and those behind it.
  pub drop_cell :
      (cells : List A) (n : ℕ)
      → n < length cells
      → (x : A) × (get_elem? cells n ≡ some x) × (drop n cells ≡ x ∷ drop (suc n) cells)
  drop_cell [] n h = absurd (omega arith)
  drop_cell (c ∷ cells) zero h = (c, refl, refl)
  drop_cell (c ∷ cells) (suc n) h = drop_cell cells n (omega arith)

  pub take-move_down :
      (n dest src : ℕ) (cells : List A)
      → dest ≤ src
      → src + n ≤ length cells
      → take (dest + n) (move_down n dest src cells) ≡ take dest cells ++ take n (drop src cells)
  unfolding move_down
  take-move_down zero dest src cells h k =
      ap (λ (m : ℕ). take m cells) (omega arith) ∙ sym (append-nil (take dest cells))
  take-move_down (suc n) dest src cells h k =
      let (x, at, behind) = drop_cell cells src (omega arith) in
      let sized = length-set cells dest x in
      rw (at, behind)
        (ap (λ (m : ℕ). take m (move_down n (suc dest) (suc src) (set cells dest x))) (omega arith)
          ∙ take-move_down n (suc dest) (suc src) (set cells dest x) (omega arith) (omega arith)
          ∙ ap₂ ◌++◌ (take-set_end cells dest x (omega arith))
              (ap (take n) (drop-set cells dest (suc src) x (omega arith)))
          ∙ append_assoc (take dest cells) (x ∷ []) (take n (drop (suc src) cells)))

  pub take-take : (m n : ℕ) (xs : List A) → m ≤ n → take m (take n xs) ≡ take m xs
  take-take zero n xs h = refl
  take-take (suc m) zero xs h = absurd (omega arith)
  take-take (suc m) (suc n) [] h = refl
  take-take (suc m) (suc n) (x ∷ xs) h = ap (◌∷◌ x) (take-take m n xs (omega arith))

  pub drop-take : (m n : ℕ) (xs : List A) → m ≤ n → drop m (take n xs) ≡ take (n - m) (drop m xs)
  drop-take zero n xs h = ap (λ (k : ℕ). take k xs) (omega arith)
  drop-take (suc m) zero xs h = absurd (omega arith)
  drop-take (suc m) (suc n) [] h = take_nil (suc n - suc m)
    where
      take_nil : (k : ℕ) → ◌≡◌ {A = List A} [] (take k [])
      take_nil zero = refl
      take_nil (suc k) = refl
  drop-take (suc m) (suc n) (x ∷ xs) h =
      drop-take m n xs (omega arith) ∙ ap (λ (k : ℕ). take k (drop m xs)) (omega arith)

  pub length-take_le : (n : ℕ) (xs : List A) → n ≤ length xs → length (take n xs) ≡ n
  length-take_le zero xs h = refl
  length-take_le (suc n) [] h = absurd (omega arith)
  length-take_le (suc n) (x ∷ xs) h = omega (arith, length-take_le n xs (omega arith))

  pub get_elem?-take : (n i : ℕ) (xs : List A) → i < n → get_elem? (take n xs) i ≡ get_elem? xs i
  get_elem?-take zero i xs h = absurd (omega arith)
  get_elem?-take (suc n) i [] h = refl
  get_elem?-take (suc n) zero (x ∷ xs) h = refl
  get_elem?-take (suc n) (suc i) (x ∷ xs) h = get_elem?-take n i xs (omega arith)

  pub take-set : (n i : ℕ) (xs : List A) (v : A) → take n (set xs i v) ≡ set (take n xs) i v
  take-set zero i xs v = refl
  take-set (suc n) i [] v = refl
  take-set (suc n) zero (x ∷ xs) v = refl
  take-set (suc n) (suc i) (x ∷ xs) v = ap (◌∷◌ x) (take-set n i xs v)

  pub take-set_beyond : (n i : ℕ) (xs : List A) (v : A) → n ≤ i → take n (set xs i v) ≡ take n xs
  take-set_beyond zero i xs v h = refl
  take-set_beyond (suc n) i [] v h = refl
  take-set_beyond (suc n) zero (x ∷ xs) v h = absurd (omega arith)
  take-set_beyond (suc n) (suc i) (x ∷ xs) v h = ap (◌∷◌ x) (take-set_beyond n i xs v (omega arith))
