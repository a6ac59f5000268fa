-- ===== src/Ranges.antt =====
-- `Range` of include/csics/Types.hpp for a 64-bit unsigned number.
pub mod Sets
mod Tests
use libcsics.Base.{
  ℕ, zero, suc, ◌+◌, ◌*◌, ◌%◌, ◌^◌, min, max, Bool, false, ltb, leb, ◌==◌, ◌&&◌, if◌then◌else◌,
  List, [], ◌∷◌, Option, none, some, map, add_size, sub_size,
}

pub record Range : Type 0 where
  pub bottom : ℕ
  pub top : ℕ

pub size : Range → ℕ
size r = sub_size r.top r.bottom

pub contains : Range → ℕ → Bool
contains r value = leb r.bottom value && ltb value r.top

-- `operator+`.
pub shifted : Range → ℕ → Range
shifted r offset = record { bottom = add_size r.bottom offset; top = add_size r.top offset }

pub union_with : Range → Range → Range
union_with r other = record { bottom = min r.bottom other.bottom; top = max r.top other.top }

pub intersection_with : Range → Range → Range
intersection_with r other =
    let new_start = max r.bottom other.bottom in
    let new_end = min r.top other.top in
    if leb new_end new_start
    then record { bottom = 0; top = 0 }
    else record { bottom = new_start; top = new_end }

-- `operator^`.
left_part : Range → Range → Option Range
left_part r other =
    if r.bottom == other.bottom
    then none
    else if ltb r.bottom other.bottom
    then some (record { bottom = r.bottom; top = other.bottom })
    else some (record { bottom = other.bottom; top = r.bottom })

right_part : Range → Range → Option Range
right_part r other =
    if r.top == other.top
    then none
    else if ltb other.top r.top
    then some (record { bottom = other.top; top = r.top })
    else some (record { bottom = r.top; top = other.top })

pub difference : Range → Range → Option Range × Option Range
unfolding size intersection_with
difference r other =
    if size (intersection_with r other) == 0
    then (some r, some other)
    else (left_part r other, right_part r other)
