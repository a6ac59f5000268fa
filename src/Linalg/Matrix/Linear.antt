-- ===== src/Linalg/Matrix/Linear.antt =====
-- The product with the other operations of matrices.
use libcsics.Base.{ℕ, ◌*◌, ◌<◌, ◌≡◌, refl, sym, ap, ap₂, ◌∙◌, List, length, zero, suc, arith}
use libcsics.Linalg.Scalar.{Scalar, ◌⊗◌}
use libcsics.Linalg.Scalar.Sum.{sum, sum_congr, sum-add, sum-mul}
use libcsics.Linalg.Matrix.{
  calculate_index, pack, cell, get, get_row, get_col, mat_add, mat_scalar_mul, mat_mul,
}
use libcsics.Linalg.Matrix.Cells.{dot, cell-mat_mul, length-mat_mul, get_or-pack, index_lt}
use libcsics.Linalg.Matrix.Laws.{matrix_ext}

length-pack {ℓ} : {A : Type ℓ} (n : ℕ) (f : ℕ → A) → length (pack n f) ≡ n
length-pack zero f = refl
length-pack (suc n) f = omega (arith, length-pack n (λ i. f (suc i)))

module _ {ℓ} {A : Type ℓ} ⦃s : Scalar A⦄ where
  -- Each cell of a product is the sum of the products along the row of one factor and the column of
  -- the other.
  pub mat_mul-get_row-get_col :
      (rows inner cols : ℕ) (a b m : List A) (i j : ℕ)
      → length m ≡ rows * cols
      → i < rows
      → j < cols
      → cell cols (mat_mul rows inner cols a b m) i j
        ≡ sum inner 0 (λ k. get (get_row inner a i) k ⊗ get (get_col inner cols b j) k)
  mat_mul-get_row-get_col rows inner cols a b m i j room row col =
      cell-mat_mul rows inner cols a b m i j room row col
      ∙ sum_congr inner 0 _ _ (λ k from to.
        ap₂ s.mul (sym (get_or-pack inner (λ l. cell inner a i l) k s.zero (omega arith)))
          (sym (get_or-pack inner (λ l. cell cols b l j) k s.zero (omega arith))))

  module _ (rows inner cols : ℕ) (a b d w : List A) (room : length w ≡ rows * cols) where
    abbrev product : List A → List A
    product x = mat_mul rows inner cols a x w

    -- Two ways to a matrix that agree in each cell, the second of them a pack.
    same_as_pack :
        (x : List A) (f : ℕ → A)
        → ((i j : ℕ) → i < rows → j < cols → dot inner cols a x i j ≡ f (calculate_index cols i j))
        → product x ≡ pack (rows * cols) f
    same_as_pack x f same =
        matrix_ext rows cols (product x) (pack (rows * cols) f)
          (length-mat_mul rows inner cols a x w ∙ room) (length-pack (rows * cols) f)
          (λ i j row col.
            cell-mat_mul rows inner cols a x w i j room row col
            ∙ same i j row col
            ∙ sym (
                get_or-pack (rows * cols) f (calculate_index cols i j) s.zero
                  (index_lt rows cols i j row col)))

    -- The product with a sum, and with a multiple, is the sum and the multiple of the products.
    pub mat_mul_linear :
        (x : A)
        → (product (mat_add inner cols b d) ≡ mat_add rows cols (product b) (product d))
          × (product (mat_scalar_mul inner cols b x) ≡ mat_scalar_mul rows cols (product b) x)
    mat_mul_linear x = (
      same_as_pack (mat_add inner cols b d) _ (λ i j row col.
          sum_congr inner 0 _ _ (λ k from to.
            ap (s.mul (cell inner a i k)) (
              get_or-pack (inner * cols) _ (calculate_index cols k j) s.zero
                (index_lt inner cols k j (omega arith) col))
            ∙ s.mul-add (cell inner a i k) (cell cols b k j) (cell cols d k j))
          ∙ sum-add inner 0 _ _
          ∙ ap₂ s.add (sym (cell-mat_mul rows inner cols a b w i j room row col))
              (sym (cell-mat_mul rows inner cols a d w i j room row col))),
      same_as_pack (mat_scalar_mul inner cols b x) _ (λ i j row col.
          sum_congr inner 0 _ _ (λ k from to.
            ap (s.mul (cell inner a i k)) (
              get_or-pack (inner * cols) _ (calculate_index cols k j) s.zero
                (index_lt inner cols k j (omega arith) col))
            ∙ sym (s.mul_assoc (cell inner a i k) (cell cols b k j) x))
          ∙ sym (sum-mul inner 0 _ x)
          ∙ ap (λ y. y ⊗ x) (sym (cell-mat_mul rows inner cols a b w i j room row col))),
    )
