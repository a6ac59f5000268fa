-- ===== src/Wire/Tests.antt =====
-- The theorems on byte order and on the view at concrete values.
use libcsics.Base.{ℕ, List, [], ◌∷◌}
use libcsics.Wire.{View}

abbrev view_1 : View
view_1 = record { written = 9 ∷ []; room = 5 }

abbrev pieces_1 : List (List ℕ)
pieces_1 = (1 ∷ 2 ∷ []) ∷ (3 ∷ 4 ∷ []) ∷ []

abbrev pieces_2 : List (List ℕ)
pieces_2 = (1 ∷ 2 ∷ 3 ∷ 4 ∷ []) ∷ (5 ∷ 6 ∷ []) ∷ (7 ∷ []) ∷ []
