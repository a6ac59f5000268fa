-- ===== src/Buffer/Views/Inside.antt =====
-- Where the views that are made from a view lie.
use libcsics.Base.{ℕ, ◌+◌, ◌-◌, ◌^◌, ◌≤◌, ◌<◌, ◌≡◌, none, some, arith, min}
use libcsics.Buffer.Views.{Region, subview, head, tail, drop_front, drop_one}

-- The elements of the view are among the `n` from `p` on; a null view has none.
abbrev pub IsWithin : Region → ℕ → ℕ → Type 0
IsWithin u p n = elim u.start [ none ↦ u.size ≡ 0 | some q ↦ (p ≤ q) × (q + u.size ≤ p + n) ]

abbrev pub region : ℕ → ℕ → Region
region p n = record { start = some p; size = n }

-- Every view that is made from a view of `n` elements lies within it, where the end of the part that
-- is asked for can be counted; and that part has the length asked for, or as much of it as there is.
pub views-IsWithin :
    (p n offset count : ℕ)
    → offset + count < 2 ^ 64
    → IsWithin (subview (region p n) offset count) p n
      × IsWithin (head (region p n) count) p n
      × IsWithin (tail (region p n) count) p n
      × IsWithin (drop_front (region p n) offset) p n
      × IsWithin (drop_one (region p n)) p n
      × ((subview (region p n) offset count).size ≡ min count (n - offset))
unfolding subview head tail drop_front drop_one
views-IsWithin p n offset count h =
    (ground arith, ground arith, ground arith, ground arith, ground arith, ground arith)

-- A count that wraps the end of the part is not clipped: the view that is made goes on past the end.
pub subview_escapes :
    (p n offset count : ℕ)
    → offset < n
    → n ≤ 2 ^ 63
    → count < 2 ^ 64
    → 2 ^ 64 ≤ offset + count
    → (subview (region p n) offset count ≡ region (p + offset) count) × (p + n < p + offset + count)
unfolding subview
subview_escapes p n offset count inside small c wraps = (ground arith, omega arith)
