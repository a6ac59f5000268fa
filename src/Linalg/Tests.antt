-- ===== src/Linalg/Tests.antt =====
-- The theorems on matrices and complex numbers at integers.
use libcsics.Base.{◌≡◌, refl, List, [], ◌∷◌, get_or, arith}
use mathlib.Core.Nat.{zero, suc}
use mathlib.Core.Int.{ℤ, pos, negsuc, ◌*ℤ◌}
use libcsics.Linalg.Scalar.{◌⊕◌, ◌⊗◌}
use libcsics.Linalg.Scalar.Sum.{sum}
use libcsics.Linalg.Scalar.Integers.{integers}
use libcsics.Linalg.Matrix.{
  calculate_index, cell, get, get_row, get_col, mat_mul, mat_mul_element, mul_rows, mul_columns,
  mac_from, of_rows,
}
use libcsics.Linalg.Matrix.Laws.{mat_mul_assoc}
use libcsics.Linalg.Matrix.Linear.{mat_mul-get_row-get_col}
use libcsics.Linalg.Matrix.Rows.{cell-of_rows}
use libcsics.Linalg.Complex.{Complex, norm, complex_mul, complex_div, scalar_div}
use libcsics.Linalg.Complex.Laws.{complex_div-mul, scalar_div-complex_mul}

abbrev nought : ℤ
nought = pos zero

abbrev unit : ℤ
unit = pos (suc zero)

abbrev two : ℤ
two = pos (suc (suc zero))

abbrev minus : ℤ
minus = negsuc zero

-- One by two, two by two, and two by one.
abbrev row : List ℤ
row = two ∷ minus ∷ []

abbrev square : List ℤ
square = unit ∷ two ∷ nought ∷ minus ∷ []

abbrev column : List ℤ
column = two ∷ two ∷ []

-- What the arrays of results hold before.
abbrev blank : List ℤ
blank = minus ∷ minus ∷ []

abbrev single : List ℤ
single = two ∷ []

mat_mul_assoc_example :
    mat_mul 1 2 1 (mat_mul 1 2 2 row square blank) column single
    ≡ mat_mul 1 2 1 row (mat_mul 2 2 1 square column blank) (minus ∷ [])
mat_mul_assoc_example =
    mat_mul_assoc 1 2 2 1 row square column blank blank single (minus ∷ []) (omega arith)
      (omega arith) (omega arith) (omega arith)

mat_mul-get_row-get_col_example :
    cell 2 (mat_mul 1 2 2 row square blank) 0 1
    ≡ sum 2 0 (λ k. get (get_row 2 row 0) k ⊗ get (get_col 2 2 square 1) k)
mat_mul-get_row-get_col_example =
    mat_mul-get_row-get_col 1 2 2 row square blank 0 1 (omega arith) (omega arith) (omega arith)

-- (2, -1) times the square is (2, 5).
multiplied : mat_mul 1 2 2 row square blank ≡ two ∷ pos (suc (suc (suc (suc (suc zero))))) ∷ []
unfolding mat_mul mul_rows mul_columns mat_mul_element mac_from
multiplied = refl

-- A row that is too short and one that is too long.
cell-of_rows_example :
    get_or
      (of_rows 2 2 ((two ∷ []) ∷ (unit ∷ two ∷ minus ∷ []) ∷ []) square)
      (calculate_index 2 0 1)
      nought
    ≡ get_or
        (get_or ((two ∷ []) ∷ (unit ∷ two ∷ minus ∷ []) ∷ []) 0 [])
        1
        (get_or square (calculate_index 2 0 1) nought)
cell-of_rows_example =
    cell-of_rows 2 2 nought ((two ∷ []) ∷ (unit ∷ two ∷ minus ∷ []) ∷ []) square 0 1 (omega arith)
      (omega arith) (omega arith)

abbrev turn : Complex ℤ
turn = record { real = nought; imag = unit }

abbrev slanted : Complex ℤ
slanted = record { real = unit; imag = minus }

-- The quotient of integers by 1 or -1.
abbrev quotient : ℤ → ℤ → ℤ
quotient x y = x *ℤ y

times_one : (x : ℤ) → quotient x (norm turn) ≡ x ⊗ unit
times_one x = refl

complex_div-mul_example : complex_mul (complex_div quotient slanted turn) turn ≡ slanted
complex_div-mul_example = complex_div-mul quotient slanted turn unit times_one refl

scalar_div-complex_mul_example :
    (complex_mul (scalar_div quotient two slanted) slanted).real ≡ two ⊕ two
scalar_div-complex_mul_example = scalar_div-complex_mul quotient two slanted refl refl
