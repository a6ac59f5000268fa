-- ===== src/Linalg/Matrix/Rows.antt =====
-- The constructor from a list of rows, of any number and lengths.
use libcsics.Base.{
  ℕ, zero, suc, ◌+◌, ◌*◌, ◌≤◌, ◌<◌, ◌≡◌, ◌≢◌, refl, ap, ◌∙◌, inl, inr, ◌&&◌, List, [], ◌∷◌, length,
  get_or, set, ltb, if◌then◌else◌, arith, length-set, Bool-cases, ltb→lt, lt→ltb,
}
use libcsics.Linalg.Matrix.{calculate_index, fill_row, fill_rows, of_rows}
use libcsics.Linalg.Matrix.Cells.{get_or-set_same, get_or-set_other, rows_apart, index_lt}

module _ {ℓ} {A : Type ℓ} (rows cols : ℕ) (d : A) where
  -- A value in a row, where the loop is.
  abbrev put_in : ℕ → ℕ → A → List A → List A
  put_in i j x m = if ltb i rows && ltb j cols then set m (calculate_index cols i j) x else m

  put_in-kept :
      (i j : ℕ) (x : A) (m : List A) (p : ℕ)
      → (i < rows → j < cols → calculate_index cols i j ≢ p)
      → get_or (put_in i j x m) p d ≡ get_or m p d
  put_in-kept i j x m p apart = elim (Bool-cases (ltb i rows)) [
    | inl row ↦ elim (Bool-cases (ltb j cols)) [
      | inl col ↦
          rw (row, col)
            (get_or-set_other m (calculate_index cols i j) p x d
              (apart (ltb→lt i rows row) (ltb→lt j cols col)))
      | inr out ↦ rw (row, out) refl
    ]
    | inr out ↦ rw out refl
  ]

  length-put_in : (i j : ℕ) (x : A) (m : List A) → length (put_in i j x m) ≡ length m
  length-put_in i j x m = elim (Bool-cases (ltb i rows && ltb j cols)) [
    | inl inside ↦ rw inside (length-set m (calculate_index cols i j) x)
    | inr out ↦ rw out refl
  ]

  fill_row-kept :
      (i j : ℕ) (xs m : List A) (p : ℕ)
      → ((j' : ℕ) → j ≤ j' → i < rows → j' < cols → calculate_index cols i j' ≢ p)
      → get_or (fill_row rows cols i j xs m) p d ≡ get_or m p d
  unfolding fill_row
  fill_row-kept i j [] m p apart = refl
  fill_row-kept i j (x ∷ xs) m p apart =
      fill_row-kept i (suc j) xs (put_in i j x m) p (λ j' le. apart j' (omega arith))
      ∙ put_in-kept i j x m p (apart j (omega arith))

  length-fill_row : (i j : ℕ) (xs m : List A) → length (fill_row rows cols i j xs m) ≡ length m
  unfolding fill_row
  length-fill_row i j [] m = refl
  length-fill_row i j (x ∷ xs) m =
      length-fill_row i (suc j) xs (put_in i j x m) ∙ length-put_in i j x m

  fill_row-written :
      (i j : ℕ) (xs m : List A) (l k : ℕ)
      → k ≡ j + l
      → length m ≡ rows * cols
      → i < rows
      → k < cols
      → get_or (fill_row rows cols i j xs m) (calculate_index cols i k) d
        ≡ get_or xs l (get_or m (calculate_index cols i k) d)
  unfolding fill_row
  fill_row-written i j [] m l k at room row col = refl
  fill_row-written i j (x ∷ xs) m zero k at room row col =
      let here : k ≡ j = omega arith in
      fill_row-kept i (suc j) xs (put_in i j x m) (calculate_index cols i k)
        (λ j' le lt lt' e. omega arith)
      ∙ ap (λ (c : ℕ). get_or (put_in i j x m) (calculate_index cols i c) d) here
      ∙ rw (lt→ltb i rows row, lt→ltb j cols (omega arith))
          (get_or-set_same m (calculate_index cols i j) x d
            (let inside = index_lt rows cols i j row (omega arith) in omega arith))
  fill_row-written i j (x ∷ xs) m (suc l) k at room row col =
      fill_row-written i (suc j) xs (put_in i j x m) l k (omega arith)
        (length-put_in i j x m ∙ room) row col
      ∙ ap (get_or xs l) (put_in-kept i j x m (calculate_index cols i k) (λ lt lt' e. omega arith))

  fill_rows-kept :
      (i : ℕ) (init : List (List A)) (m : List A) (p : ℕ)
      → ((i' j' : ℕ) → i ≤ i' → i' < rows → j' < cols → calculate_index cols i' j' ≢ p)
      → get_or (fill_rows rows cols i init m) p d ≡ get_or m p d
  unfolding fill_rows
  fill_rows-kept i [] m p apart = refl
  fill_rows-kept i (xs ∷ init) m p apart =
      fill_rows-kept (suc i) init (fill_row rows cols i 0 xs m) p
        (λ i' j' le. apart i' j' (omega arith))
      ∙ fill_row-kept i 0 xs m p (λ j' le. apart i j' (omega arith))

  fill_rows-written :
      (i : ℕ) (init : List (List A)) (m : List A) (l k j : ℕ)
      → k ≡ i + l
      → length m ≡ rows * cols
      → k < rows
      → j < cols
      → get_or (fill_rows rows cols i init m) (calculate_index cols k j) d
        ≡ get_or (get_or init l []) j (get_or m (calculate_index cols k j) d)
  unfolding fill_rows
  fill_rows-written i [] m l k j at room row col = refl
  fill_rows-written i (xs ∷ init) m zero k j at room row col =
      let here : i ≡ k = omega arith in
      fill_rows-kept (suc i) init (fill_row rows cols i 0 xs m) (calculate_index cols k j)
        (λ i' j' le lt lt' e. let less = rows_apart cols k j i' j' col (omega arith) in omega arith)
      ∙ ap (λ (r : ℕ). get_or (fill_row rows cols r 0 xs m) (calculate_index cols k j) d) here
      ∙ fill_row-written k 0 xs m j j (omega arith) room row col
  fill_rows-written i (xs ∷ init) m (suc l) k j at room row col =
      fill_rows-written (suc i) init (fill_row rows cols i 0 xs m) l k j (omega arith)
        (length-fill_row i 0 xs m ∙ room) row col
      ∙ ap (get_or (get_or init l []) j) (
          fill_row-kept i 0 xs m (calculate_index cols k j) (λ j' le lt lt' e.
            let less = rows_apart cols i j' k j lt' (omega arith) in omega arith))

  -- A matrix made from rows has in each cell what its row has there. A cell that no row reaches keeps
  -- what the array held before, and what is beyond the dimensions is left out.
  pub cell-of_rows :
      (init : List (List A)) (m : List A) (i j : ℕ)
      → length m ≡ rows * cols
      → i < rows
      → j < cols
      → get_or (of_rows rows cols init m) (calculate_index cols i j) d
        ≡ get_or (get_or init i []) j (get_or m (calculate_index cols i j) d)
  unfolding of_rows
  cell-of_rows init m i j room row col = fill_rows-written 0 init m i i j (omega arith) room row col
