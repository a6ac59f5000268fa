-- ===== src/Linalg/Matrix/Cells.antt =====
-- Which cells the loops of the product write.
use libcsics.Base.{
  ℕ, zero, suc, ◌+◌, ◌*◌, ◌≤◌, ◌<◌, ◌≡◌, ◌≢◌, refl, sym, ap, ◌∙◌, inl, inr, List, [], ◌∷◌, length,
  get_or, set, arith, ℕ-cases, length-set,
}
use libcsics.Linalg.Scalar.{Scalar, ◌⊕◌, ◌⊗◌}
use libcsics.Linalg.Scalar.Sum.{sum}
use libcsics.Linalg.Matrix.{
  calculate_index, pack, cell, get, mac_from, mat_mul_element, mul_columns, mul_rows, mat_mul,
}

module _ {ℓ} {A : Type ℓ} where
  pub get_or-set_same :
      (xs : List A) (i : ℕ) (v d : A) → i < length xs → get_or (set xs i v) i d ≡ v
  get_or-set_same [] i v d lt = absurd (omega arith)
  get_or-set_same (x ∷ xs) zero v d lt = refl
  get_or-set_same (x ∷ xs) (suc i) v d lt = get_or-set_same xs i v d (omega arith)

  pub get_or-set_other :
      (xs : List A) (i j : ℕ) (v d : A) → i ≢ j → get_or (set xs i v) j d ≡ get_or xs j d
  get_or-set_other [] i j v d ne = refl
  get_or-set_other (x ∷ xs) zero zero v d ne = absurd (ne refl)
  get_or-set_other (x ∷ xs) zero (suc j) v d ne = refl
  get_or-set_other (x ∷ xs) (suc i) zero v d ne = refl
  get_or-set_other (x ∷ xs) (suc i) (suc j) v d ne =
      get_or-set_other xs i j v d (λ e. ne (ap suc e))

  pub get_or-pack : (n : ℕ) (f : ℕ → A) (i : ℕ) (d : A) → i < n → get_or (pack n f) i d ≡ f i
  get_or-pack zero f i d lt = absurd (omega arith)
  get_or-pack (suc n) f zero d lt = refl
  get_or-pack (suc n) f (suc i) d lt = get_or-pack n (λ k. f (suc k)) i d (omega arith)

pub index_lt : (rows cols i j : ℕ) → i < rows → j < cols → calculate_index cols i j < rows * cols
index_lt rows cols i j p q = grind arith

row_room : (rows cols i n : ℕ) → n ≡ rows * cols → i < rows → calculate_index cols i cols ≤ n
row_room rows cols i n room p = grind arith

pub rows_apart :
    (cols i j i' j' : ℕ) → j < cols → i < i' → calculate_index cols i j < calculate_index cols i' j'
rows_apart cols i j i' j' q p = grind arith

module _ {ℓ} {A : Type ℓ} ⦃s : Scalar A⦄ where
  mac_from-sum : (n k : ℕ) (a b : ℕ → A) (r : A) → mac_from n k a b r ≡ r ⊕ sum n k (λ l. a l ⊗ b l)
  unfolding mac_from
  mac_from-sum zero k a b r = sym (s.add_comm r s.zero ∙ s.zero-add r)
  mac_from-sum (suc n) k a b r =
      mac_from-sum n (suc k) a b (r ⊕ a k ⊗ b k)
      ∙ s.add_assoc r (a k ⊗ b k) (sum n (suc k) (λ l. a l ⊗ b l))

  module _ (inner cols : ℕ) (a b : List A) where
    -- The cell of the product.
    abbrev pub dot : ℕ → ℕ → A
    dot i j = sum inner 0 (λ k. cell inner a i k ⊗ cell cols b k j)

    mat_mul_element-dot : (i j : ℕ) → mat_mul_element inner cols a b i j ≡ dot i j
    unfolding mat_mul_element
    mat_mul_element-dot i j =
        mac_from-sum inner 0 (λ k. cell inner a i k) (λ k. cell cols b k j) s.zero
        ∙ s.zero-add (dot i j)

    length-mul_columns :
        (i n j : ℕ) (m : List A) → length (mul_columns inner cols a b i n j m) ≡ length m
    unfolding mul_columns
    length-mul_columns i zero j m = refl
    length-mul_columns i (suc n) j m =
        length-mul_columns i n (suc j) _ ∙ length-set m (calculate_index cols i j) _

    length-mul_rows : (n i : ℕ) (m : List A) → length (mul_rows inner cols a b n i m) ≡ length m
    unfolding mul_rows
    length-mul_rows zero i m = refl
    length-mul_rows (suc n) i m = length-mul_rows n (suc i) _ ∙ length-mul_columns i cols 0 m

    columns_kept :
        (i n j : ℕ) (m : List A) (p : ℕ)
        → ((j' : ℕ) → j ≤ j' → j' < j + n → calculate_index cols i j' ≢ p)
        → get (mul_columns inner cols a b i n j m) p ≡ get m p
    unfolding mul_columns
    columns_kept i zero j m p apart = refl
    columns_kept i (suc n) j m p apart =
        columns_kept i n (suc j) _ p (λ j' le lt. apart j' (omega arith) (omega arith))
        ∙ get_or-set_other m (calculate_index cols i j) p _ s.zero
            (apart j (omega arith) (omega arith))

    columns_written :
        (i n j : ℕ) (m : List A) (j' : ℕ)
        → calculate_index cols i cols ≤ length m
        → j + n ≤ cols
        → j ≤ j'
        → j' < j + n
        → cell cols (mul_columns inner cols a b i n j m) i j' ≡ dot i j'
    unfolding mul_columns
    columns_written i zero j m j' room fits from to = absurd (omega arith)
    columns_written i (suc n) j m j' room fits from to = elim (ℕ-cases j j') [
      | inl eq ↦
          let v = mat_mul_element inner cols a b i j in
          ap (λ (l : ℕ). cell cols (mul_columns inner cols a b i (suc n) j m) i l) (sym eq)
          ∙ columns_kept i n (suc j) (set m (calculate_index cols i j) v) (calculate_index cols i j)
              (λ l le lt e. omega arith)
          ∙ get_or-set_same m (calculate_index cols i j) v s.zero (omega arith)
          ∙ mat_mul_element-dot i j
          ∙ ap (λ (l : ℕ). dot i l) eq
      | inr ne ↦
          columns_written i n (suc j) _ j'
            (omega
              (arith, length-set m (calculate_index cols i j) (mat_mul_element inner cols a b i j)))
            (omega arith) (omega arith) (omega arith)
    ]

    rows_kept :
        (n i : ℕ) (m : List A) (p : ℕ)
        → ((i' j' : ℕ) → i ≤ i' → i' < i + n → j' < cols → calculate_index cols i' j' ≢ p)
        → get (mul_rows inner cols a b n i m) p ≡ get m p
    unfolding mul_rows
    rows_kept zero i m p apart = refl
    rows_kept (suc n) i m p apart =
        rows_kept n (suc i) _ p (λ i' j' le lt. apart i' j' (omega arith) (omega arith))
        ∙ columns_kept i cols 0 m p
            (λ j' le lt. apart i j' (omega arith) (omega arith) (omega arith))

    rows_written :
        (rows n i : ℕ) (m : List A) (i' j' : ℕ)
        → length m ≡ rows * cols
        → i + n ≤ rows
        → i ≤ i'
        → i' < i + n
        → j' < cols
        → cell cols (mul_rows inner cols a b n i m) i' j' ≡ dot i' j'
    unfolding mul_rows
    rows_written rows zero i m i' j' room fits from to col = absurd (omega arith)
    rows_written rows (suc n) i m i' j' room fits from to col = elim (ℕ-cases i i') [
      | inl eq ↦
          let m' = mul_columns inner cols a b i cols 0 m in
          ap (λ (l : ℕ). cell cols (mul_rows inner cols a b n (suc i) m') l j') (sym eq)
          ∙ rows_kept n (suc i) m' (calculate_index cols i j')
              (λ k l le lt at e. let less = rows_apart cols i j' k l col le in omega arith)
          ∙ columns_written i cols 0 m j' (row_room rows cols i (length m) room (omega arith))
              (omega arith) (omega arith) (omega arith)
          ∙ ap (λ (l : ℕ). dot l j') eq
      | inr ne ↦
          rows_written rows n (suc i) (mul_columns inner cols a b i cols 0 m) i' j'
            (length-mul_columns i cols 0 m ∙ room) (omega arith) (omega arith) (omega arith) col
    ]

  -- Each cell of a product is the sum of the products along its row and column.
  pub cell-mat_mul :
      (rows inner cols : ℕ) (a b m : List A) (i j : ℕ)
      → length m ≡ rows * cols
      → i < rows
      → j < cols
      → cell cols (mat_mul rows inner cols a b m) i j ≡ dot inner cols a b i j
  unfolding mat_mul
  cell-mat_mul rows inner cols a b m i j room row col =
      rows_written inner cols a b rows rows 0 m i j room (omega arith) (omega arith) (omega arith)
        col

  pub length-mat_mul :
      (rows inner cols : ℕ) (a b m : List A) → length (mat_mul rows inner cols a b m) ≡ length m
  unfolding mat_mul
  length-mat_mul rows inner cols a b m = length-mul_rows inner cols a b rows 0 m
