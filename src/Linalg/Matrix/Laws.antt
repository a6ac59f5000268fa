-- ===== src/Linalg/Matrix/Laws.antt =====
-- The laws of the product, on whole arrays.
use libcsics.Base.{
  ℕ, zero, suc, ◌*◌, ◌/◌, ◌%◌, ◌<◌, ◌≡◌, refl, sym, ap, ap₂, ◌∙◌, List, [], ◌∷◌, length, get_or,
  arith,
}
use native.Mathlib.Nat.{div-lt_iff_lt-mul, mod-lt, div-add-mod'}
use libcsics.Linalg.Scalar.{Scalar, ◌⊗◌}
use libcsics.Linalg.Scalar.Sum.{sum, sum_congr, mul-sum, sum-mul, sum_comm}
use libcsics.Linalg.Matrix.{cell, get, mat_mul}
use libcsics.Linalg.Matrix.Cells.{cell-mat_mul, length-mat_mul}

list_ext {ℓ} :
    {A : Type ℓ} (xs ys : List A) (d : A)
    → length xs ≡ length ys
    → ((i : ℕ) → i < length xs → get_or xs i d ≡ get_or ys i d)
    → xs ≡ ys
list_ext [] [] d len same = refl
list_ext [] (y ∷ ys) d len same = absurd (omega arith)
list_ext (x ∷ xs) [] d len same = absurd (omega arith)
list_ext (x ∷ xs) (y ∷ ys) d len same =
    ap₂ (λ z zs. z ∷ zs) (same 0 (omega arith))
      (list_ext xs ys d (omega arith) (λ i lt. same (suc i) (omega arith)))

some_column : (rows cols p : ℕ) → p < rows * cols → 0 < cols
some_column rows zero p h = absurd (grind arith)
some_column rows (suc cols) p h = omega arith

row_lt : (rows cols p : ℕ) → p < rows * cols → p / cols < rows
row_lt rows cols p h = (div-lt_iff_lt-mul (some_column rows cols p h)).1 h

col_lt : (rows cols p : ℕ) → p < rows * cols → p % cols < cols
col_lt rows cols p h = mod-lt p (some_column rows cols p h)

module _ {ℓ} {A : Type ℓ} ⦃s : Scalar A⦄ where
  -- Matrices with the same cells are the same array.
  pub matrix_ext :
      (rows cols : ℕ) (xs ys : List A)
      → length xs ≡ rows * cols
      → length ys ≡ rows * cols
      → ((i j : ℕ) → i < rows → j < cols → cell cols xs i j ≡ cell cols ys i j)
      → xs ≡ ys
  matrix_ext rows cols xs ys lx ly same = list_ext xs ys s.zero (lx ∙ sym ly) λ p lt.
      let inside : p < rows * cols = omega arith in
      let back = div-add-mod' p cols in
      ap (get xs) (sym back)
      ∙ same (p / cols) (p % cols) (row_lt rows cols p inside) (col_lt rows cols p inside)
      ∙ ap (get ys) back

  module _ (rows left right cols : ℕ) (a b d u v w w' : List A) (lu : length u ≡ rows * right)
      (lv : length v ≡ left * cols) (lw : length w ≡ rows * cols)
      (lw' : length w' ≡ rows * cols) where
    abbrev term : ℕ → ℕ → ℕ → ℕ → A
    term i j k l = cell left a i l ⊗ (cell right b l k ⊗ cell cols d k j)

    first_way :
        (i j : ℕ)
        → i < rows
        → j < cols
        → cell cols (mat_mul rows right cols (mat_mul rows left right a b u) d w) i j
          ≡ sum right 0 (λ k. sum left 0 (λ l. term i j k l))
    first_way i j row col =
        cell-mat_mul rows right cols (mat_mul rows left right a b u) d w i j lw row col
        ∙ sum_congr right 0 _ _ (λ k from to.
          ap (λ x. x ⊗ cell cols d k j)
            (cell-mat_mul rows left right a b u i k lu row (omega arith))
          ∙ sum-mul left 0 (λ l. cell left a i l ⊗ cell right b l k) (cell cols d k j)
          ∙ sum_congr left 0 _ _
              (λ l from' to'. s.mul_assoc (cell left a i l) (cell right b l k) (cell cols d k j)))

    second_way :
        (i j : ℕ)
        → i < rows
        → j < cols
        → cell cols (mat_mul rows left cols a (mat_mul left right cols b d v) w') i j
          ≡ sum left 0 (λ l. sum right 0 (λ k. term i j k l))
    second_way i j row col =
        cell-mat_mul rows left cols a (mat_mul left right cols b d v) w' i j lw' row col
        ∙ sum_congr left 0 _ _ (λ l from to.
          ap (s.mul (cell left a i l)) (cell-mat_mul left right cols b d v l j lv (omega arith) col)
          ∙ mul-sum right 0 (cell left a i l) (λ k. cell right b l k ⊗ cell cols d k j))

    -- The product of matrices of any dimensions is associative, whatever the arrays of the results held
    -- before.
    pub mat_mul_assoc :
        mat_mul rows right cols (mat_mul rows left right a b u) d w
        ≡ mat_mul rows left cols a (mat_mul left right cols b d v) w'
    mat_mul_assoc =
        matrix_ext rows cols _ _
          (length-mat_mul rows right cols (mat_mul rows left right a b u) d w ∙ lw)
          (length-mat_mul rows left cols a (mat_mul left right cols b d v) w' ∙ lw')
          (λ i j row col.
            first_way i j row col
            ∙ sum_comm right left 0 0 (λ k l. term i j k l)
            ∙ sym (second_way i j row col))
