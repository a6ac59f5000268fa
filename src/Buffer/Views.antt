-- ===== src/Buffer/Views.antt =====
-- `BasicBufferView`: a pointer, as the offset of an element in the memory that it points into, and a
-- number of elements. The arithmetic is that of a 64-bit `size_t`.
pub mod Inside
use libcsics.Base.{
  ℕ, ◌+◌, ◌-◌, ltb, leb, ◌==◌, ◌&&◌, Bool, true, false, not, Option, none, some, if◌then◌else◌,
}
use libcsics.Base.{add_size}

pub record Region : Type 0 where
  pub start : Option ℕ
  pub size : ℕ

-- `BasicBufferView()`.
abbrev pub null_region : Region
null_region = record { start = none; size = 0 }

-- `buf_ + n`.
abbrev pub advance : Option ℕ → ℕ → Option ℕ
advance none n = none
advance (some p) n = some (p + n)

pub subview : Region → ℕ → ℕ → Region
subview v offset length = if leb v.size offset then null_region else record {
  start = advance v.start offset;
  size = if ltb v.size (add_size offset length) then v.size - offset else length;
}

pub head : Region → ℕ → Region
head v length = record { start = v.start; size = if ltb v.size length then v.size else length }

pub tail : Region → ℕ → Region
tail v length =
    let n = if ltb v.size length then v.size else length in
    record { start = advance v.start (v.size - n); size = n }

-- `operator+` and `operator+=`.
pub drop_front : Region → ℕ → Region
drop_front v offset =
    if ltb v.size offset
    then null_region
    else record { start = advance v.start offset; size = v.size - offset }

-- `operator++`.
pub drop_one : Region → Region
drop_one v = if v.size == 0 then v else record { start = advance v.start 1; size = v.size - 1 }

-- `operator bool`.
abbrev pub points : Option ℕ → Bool
points none = false
points (some p) = true

pub is_valid : Region → Bool
is_valid v = points v.start && not (v.size == 0)
