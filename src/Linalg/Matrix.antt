-- ===== src/Linalg/Matrix.antt =====
-- include/csics/linalg/Matrix.hpp. A `Matrix<T, Rows, Cols>` is its array `data_`, row by row; its
-- dimensions are arguments. What is read out of range would be undefined, and is zero here. What an
-- array holds before it is written is an argument too.
pub mod Cells
pub mod Laws
pub mod Rows
pub mod Linear
use libcsics.Base.{
  ℕ, zero, suc, ◌+◌, ◌*◌, Bool, true, false, ◌&&◌, List, [], ◌∷◌, ltb, if◌then◌else◌, get_or, set,
}
use libcsics.Linalg.Scalar.{Scalar, ◌⊕◌, ◌⊖◌, ◌⊗◌}

-- `calculate_index`.
abbrev pub calculate_index : ℕ → ℕ → ℕ → ℕ
calculate_index cols i j = i * cols + j

-- A pack over an index sequence.
abbrev pub pack {ℓ} : {A : Type ℓ} → ℕ → (ℕ → A) → List A
pack zero f = []
pack (suc n) f = f zero ∷ pack n (λ i. f (suc i))

module _ {ℓ} {A : Type ℓ} where
  -- The constructor from a list of rows: the loop over a row, and the one over the rows.
  pub fill_row : ℕ → ℕ → ℕ → ℕ → List A → List A → List A
  fill_row rows cols i j [] m = m
  fill_row rows cols i j (x ∷ xs) m =
      fill_row rows cols i (suc j) xs
        (if ltb i rows && ltb j cols then set m (calculate_index cols i j) x else m)

  pub fill_rows : ℕ → ℕ → ℕ → List (List A) → List A → List A
  fill_rows rows cols i [] m = m
  fill_rows rows cols i (row ∷ init) m =
      fill_rows rows cols (suc i) init (fill_row rows cols i 0 row m)

  pub of_rows : ℕ → ℕ → List (List A) → List A → List A
  of_rows rows cols init m = fill_rows rows cols 0 init m

module _ {ℓ} {A : Type ℓ} ⦃s : Scalar A⦄ where
  -- `operator()` and `get`.
  abbrev pub cell : ℕ → List A → ℕ → ℕ → A
  cell cols m i j = get_or m (calculate_index cols i j) s.zero

  abbrev pub get : List A → ℕ → A
  get m i = get_or m i s.zero

  -- `get_row` and `get_col`.
  abbrev pub get_row : ℕ → List A → ℕ → List A
  get_row cols m i = pack cols (λ j. get m (calculate_index cols i j))

  abbrev pub get_col : ℕ → ℕ → List A → ℕ → List A
  get_col rows cols m j = pack rows (λ i. get m (calculate_index cols i j))

  -- `operator+`, `operator-` and `operator*` by a scalar.
  abbrev pub mat_add : ℕ → ℕ → List A → List A → List A
  mat_add rows cols a b = pack (rows * cols) (λ i. get a i ⊕ get b i)

  abbrev pub mat_sub : ℕ → ℕ → List A → List A → List A
  mat_sub rows cols a b = pack (rows * cols) (λ i. get a i ⊖ get b i)

  abbrev pub mat_scalar_mul : ℕ → ℕ → List A → A → List A
  mat_scalar_mul rows cols m x = pack (rows * cols) (λ i. get m i ⊗ x)

  -- `Mac::apply`.
  abbrev pub mac : A → A → A → A
  mac a b c = a ⊕ b ⊗ c

  -- The fold of `mat_mul_element` over `n` indices from `k` on.
  unfoldable pub mac_from : ℕ → ℕ → (ℕ → A) → (ℕ → A) → A → A
  mac_from zero k a b result = result
  mac_from (suc n) k a b result = mac_from n (suc k) a b (mac result (a k) (b k))

  unfoldable pub mat_mul_element : ℕ → ℕ → List A → List A → ℕ → ℕ → A
  unfolding mac_from
  mat_mul_element inner cols a b i j =
      mac_from inner 0 (λ k. cell inner a i k) (λ k. cell cols b k j) s.zero

  -- The columns of a row of `mat_mul_impl`, from `j` on, and the rows from `i` on.
  unfoldable pub mul_columns : ℕ → ℕ → List A → List A → ℕ → ℕ → ℕ → List A → List A
  mul_columns inner cols a b i zero j result = result
  mul_columns inner cols a b i (suc n) j result =
      mul_columns inner cols a b i n (suc j)
        (set result (calculate_index cols i j) (mat_mul_element inner cols a b i j))

  unfoldable pub mul_rows : ℕ → ℕ → List A → List A → ℕ → ℕ → List A → List A
  mul_rows inner cols a b zero i result = result
  mul_rows inner cols a b (suc n) i result =
      mul_rows inner cols a b n (suc i) (mul_columns inner cols a b i cols 0 result)

  -- `operator*`, into an array that holds anything.
  unfoldable pub mat_mul : ℕ → ℕ → ℕ → List A → List A → List A → List A
  mat_mul rows inner cols a b result = mul_rows inner cols a b rows 0 result
