-- ===== src/Ranges/Sets.antt =====
-- Ranges as sets of numbers.
use libcsics.Base.{
  ℕ, ◌-◌, ◌^◌, ◌≤◌, ◌<◌, ◌≡◌, min, max, Bool, true, false, not, leb, ◌&&◌, ◌||◌, Option, none, some,
  arith, sub_size, ◌≢◌, Bool-cases, inl, inr, sym, leb→le, not-leb→lt, ne→not-==,
}
use libcsics.Ranges.{
  Range, size, contains, union_with, intersection_with, difference, left_part, right_part,
}

-- The part of a difference holds the number.
abbrev pub held : Option Range → ℕ → Bool
held none v = false
held (some r) v = contains r v

abbrev pub exactly_one : Bool → Bool → Bool
exactly_one a b = (a || b) && not (a && b)

-- The intersection holds the numbers that both ranges hold, and the union all that either holds.
pub contains-intersection :
    (r s : Range) (v : ℕ)
    → (contains (intersection_with r s) v ≡ (contains r v && contains s v))
      × ((contains r v || contains s v) ≡ true → contains (union_with r s) v ≡ true)
unfolding contains intersection_with union_with
contains-intersection r s v = (ground arith, λ h. ground arith)

-- Where two ranges overlap, the numbers in the pieces.
split_piece :
    (r s : Range) (v : ℕ)
    → max r.bottom s.bottom < min r.top s.top
    → (exactly_one (contains r v) (contains s v)
        ≡ (held (left_part r s) v || held (right_part r s) v))
      × ((held (left_part r s) v && held (right_part r s) v) ≡ false)
unfolding contains left_part right_part
split_piece r s v h = (ground arith, ground arith)

apart :
    (r s : Range) (v : ℕ)
    → min r.top s.top ≤ max r.bottom s.bottom
    → (exactly_one (contains r v) (contains s v) ≡ (contains r v || contains s v))
      × ((contains r v && contains s v) ≡ false)
unfolding contains
apart r s v h = (ground arith, ground arith)

-- The ranges that the difference of two ranges of 64-bit numbers gives hold exactly the numbers that
-- one of the two holds and the other does not, and no number is in both pieces.
pub difference-exactly_one :
    (r s : Range) (v : ℕ)
    → r.top < 2 ^ 64
    → s.top < 2 ^ 64
    → let pieces = difference r s in
      ((held pieces.0 v || held pieces.1 v) ≡ exactly_one (contains r v) (contains s v))
      × ((held pieces.0 v && held pieces.1 v) ≡ false)
unfolding difference size intersection_with
difference-exactly_one r s v top_r top_s =
    elim (Bool-cases (leb (min r.top s.top) (max r.bottom s.bottom))) [
      | inl none_shared ↦
          let (one, never) = apart r s v (leb→le _ _ none_shared) in rw none_shared (sym one, never)
      | inr some_shared ↦
          let lt = not-leb→lt _ _ some_shared in
          let (one, never) = split_piece r s v lt in
          let sized : sub_size (min r.top s.top) (max r.bottom s.bottom)
              ≡ min r.top s.top - max r.bottom s.bottom =
            omega arith in
          let some_size : min r.top s.top - max r.bottom s.bottom ≢ 0 = omega arith in
          rw (some_shared, sized, ne→not-== (min r.top s.top - max r.bottom s.bottom) 0 some_size)
            (sym one, never)
    ]
