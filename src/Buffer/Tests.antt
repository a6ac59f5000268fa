-- ===== src/Buffer/Tests.antt =====
-- The theorems on buffers and views at concrete ones.
use libcsics.Base.{
  ℕ, ◌+◌, ◌-◌, ◌^◌, ◌<◌, ◌≡◌, refl, List, [], ◌∷◌, some, arith, min, replicate, length-replicate,
}
use libcsics.Buffer.Views.{subview, head, tail, drop_front, drop_one}
use libcsics.Buffer.Views.Inside.{IsWithin, region, views-IsWithin, subview_escapes}
use libcsics.Buffer.Capacity.{Rounding, exact}
use libcsics.Buffer.Store.{Allocator, Buffer, empty_buffer}
use libcsics.Buffer.Store.Contents.{Holds}
use libcsics.Buffer.Store.Steps.{Op, push, add_all, pop, cut, swap_out, look, Agree, apply_list}
use libcsics.Buffer.Store.Runs.{run, run_list, run-Agree}

-- A rounding that never rounds.
abbrev plain : Rounding
plain = record { bit_ceil = λ n. n; ceil_of_half_more = λ n. n; bit_ceil-le = λ n h. omega arith }

abbrev sevens : Allocator ℕ
sevens = record {
  rounding = plain;
  policy = exact;
  raw = λ n. replicate n 7;
  length-raw = λ n. length-replicate n 7;
}

views-IsWithin_example :
    IsWithin (subview (region 100 10) 4 9) 100 10
    × IsWithin (head (region 100 10) 9) 100 10
    × IsWithin (tail (region 100 10) 9) 100 10
    × IsWithin (drop_front (region 100 10) 4) 100 10
    × IsWithin (drop_one (region 100 10)) 100 10
    × ((subview (region 100 10) 4 9).size ≡ min 9 (10 - 4))
views-IsWithin_example = views-IsWithin 100 10 4 9 (omega arith)

subview_escapes_example :
    (subview (region 100 10) 4 (2 ^ 64 - 1) ≡ region (100 + 4) (2 ^ 64 - 1))
    × (100 + 10 < 100 + 4 + (2 ^ 64 - 1))
subview_escapes_example =
    subview_escapes 100 10 4 (2 ^ 64 - 1) (omega arith) (omega arith) (omega arith) (omega arith)

abbrev program : List (Op ℕ)
program = push 1 ∷ add_all (2 ∷ 3 ∷ 4 ∷ 5 ∷ []) ∷ cut 1 3 ∷ swap_out 0 ∷ look 1 ∷ pop ∷ []

abbrev nothing : Buffer ℕ
nothing = empty_buffer

nothing-Holds : Holds nothing []
nothing-Holds = record { valid = record { fits = omega arith; allocated = refl }; elements = refl }

run-Agree_example : Agree (run sevens program nothing) (run_list program [])
run-Agree_example = run-Agree sevens program nothing [] (λ n h. tt) nothing-Holds (omega arith)

-- What the list becomes.
program-list : run_list program [] ≡ some (5 ∷ [], 4 ∷ 4 ∷ [])
unfolding run_list apply_list
program-list = refl
