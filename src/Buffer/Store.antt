-- ===== src/Buffer/Store.antt =====
-- `Buffer<T, Alignment, Policy>` for a `T` that is trivially constructed and destroyed. The cells are
-- the allocation that `buf_` points to; a null pointer is no cells. The assertions are those of a debug
-- build; none is one that fails, an exception, or a write past the allocation.
pub mod Contents
pub mod Steps
pub mod Runs
use libcsics.Base.{
  ℕ, zero, suc, ◌+◌, ◌-◌, ◌≡◌, ltb, leb, ◌==◌, ◌&&◌, ◌||◌, not, if◌then◌else◌, List, [], ◌∷◌,
  Option, none, some, length, get_elem?, set, take, add_size,
}
use libcsics.Buffer.Capacity.{Rounding, CapacityPolicy, adjust_capacity}
use libcsics.Buffer.Cells.{copy_to, move_down}

-- The policy, and `operator new`: a number of cells that hold anything.
pub record Allocator {ℓ} (A : Type ℓ) : Type ℓ where
  pub rounding : Rounding
  pub policy : CapacityPolicy
  pub raw : ℕ → List A
  pub length-raw : (n : ℕ) → length (raw n) ≡ n

pub record Buffer {ℓ} (A : Type ℓ) : Type ℓ where
  pub capacity : ℕ
  pub size : ℕ
  pub cells : List A

module _ {ℓ} {A : Type ℓ} where
  abbrev pub empty_buffer : Buffer A
  empty_buffer = record { capacity = 0; size = 0; cells = [] }

  -- `pop_back`, behind its assertion.
  pub pop_back : Buffer A → Option (A × Buffer A)
  pop_back b = if b.size == 0 then none else elim (get_elem? b.cells (b.size - 1)) [
    | none ↦ none
    | some x ↦ some (x, record b { size = b.size - 1 })
  ]

  pub clear : Buffer A → Buffer A
  clear b = record b { size = 0 }

  -- `erase` of the elements from the first to the last, behind its assertions.
  unfoldable pub erase : ℕ → ℕ → Buffer A → Option (Buffer A)
  erase first last b =
      if ltb first b.size && leb last b.size && leb first last
      then some (record b {
        cells = move_down (b.size - last) first last b.cells;
        size = b.size - (last - first);
      })
      else none

  -- `swap_and_pop`, behind its assertion.
  unfoldable pub swap_and_pop : ℕ → Buffer A → Option (Buffer A)
  swap_and_pop pos b =
      if ltb pos b.size
      then elim (get_elem? b.cells (b.size - 1)) [
        | none ↦ none
        | some x ↦ some (record b {
          cells = if pos == (b.size - 1) then b.cells else set b.cells pos x;
          size = b.size - 1;
        })
      ]
      else none

  -- `at`; none for the exception.
  pub at : ℕ → Buffer A → Option A
  at index b = if leb b.size index then none else get_elem? b.cells index

  -- `front` and `back`, behind their assertions.
  pub front : Buffer A → Option A
  front b = if b.size == 0 then none else get_elem? b.cells 0

  pub back : Buffer A → Option A
  back b = if b.size == 0 then none else get_elem? b.cells (b.size - 1)

  -- A change of a buffer, if there is one.
  abbrev pub change {κ} : {B : Type κ} → (Buffer A → Option B) → Option (Buffer A) → Option B
  change f none = none
  change f (some b) = f b

  -- The values at the end of the elements; none where they go past the allocation.
  abbrev pub write_behind : List A → Buffer A → Option (Buffer A)
  write_behind xs b =
      if ltb (length b.cells) (b.size + length xs)
      then none
      else some (record b { cells = copy_to b.cells b.size xs; size = add_size b.size (length xs) })

  module _ (new : Allocator A) where
    -- `reallocate`, with its assertion.
    pub reallocate : ℕ → Buffer A → Option (Buffer A)
    reallocate n b =
        let capacity = adjust_capacity new.rounding new.policy n in
        if ltb capacity b.size
        then none
        else some (record b {
          capacity = capacity;
          cells = copy_to (new.raw capacity) 0 (take b.size b.cells);
        })

    pub add_capacity_for : ℕ → Buffer A → Option (Buffer A)
    add_capacity_for n b =
        if ltb b.capacity (add_size b.size n) then reallocate (add_size b.size n) b else some b

    unfoldable pub push_back : A → Buffer A → Option (Buffer A)
    push_back x b = change (write_behind (x ∷ [])) (add_capacity_for 1 b)

    unfoldable pub append : List A → Buffer A → Option (Buffer A)
    append xs b =
        if length xs == 0 then some b else change (write_behind xs) (add_capacity_for (length xs) b)

    pub append_uninitialized : ℕ → Buffer A → Option (Buffer A)
    append_uninitialized n b =
        change (λ (grown : Buffer A). some (record grown { size = add_size grown.size n }))
          (add_capacity_for n b)

    pub resize : ℕ → Buffer A → Option (Buffer A)
    resize n b =
        change (λ (grown : Buffer A). some (record grown { size = n }))
          (if ltb b.capacity n then reallocate n b else some b)
