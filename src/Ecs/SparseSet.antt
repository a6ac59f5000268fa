-- ===== src/Ecs/SparseSet.antt =====
-- include/csics/sim/ecs/SparseSet.hpp. `sparse_` is a function of the entity's id, with `absent` for
-- the largest `size_t`; the two buffers are lists. An assertion that fails, which
-- without it is an access out of range, is `none`.
mod Slots
pub mod Invariant
pub mod Removal
pub mod Lookup
pub mod Remove
pub mod Generations
use libcsics.Base.{
  ℕ, ◌-◌, ◌^◌, Bool, ◌||◌, List, [], ◌∷◌, ◌++◌, Option, none, some, ltb, leb, ◌==◌, if◌then◌else◌,
  length, get_elem?, set, not,
}
pub use Slots.*

-- `Entity`.
pub record Entity : Type 0 where
  pub id : ℕ
  pub generation : ℕ

-- `std::numeric_limits<std::size_t>::max()`.
abbrev pub absent : ℕ
absent = 2 ^ 64 - 1

-- `SparseSet<C, N>`, without N.
pub record SparseSet {ℓ} (C : Type ℓ) : Type ℓ where
  pub dense : List C
  pub sparse : ℕ → ℕ
  pub entities : List Entity

module _ {ℓ} {C : Type ℓ} where
  abbrev pub empty_set : SparseSet C
  empty_set = record { dense = []; sparse = λ id. absent; entities = [] }

  -- `contains`, behind its assertion, for a capacity of `n` ids.
  unfoldable pub contains : ℕ → SparseSet C → Entity → Option Bool
  contains n s e = if ltb e.id n then some (not (s.sparse e.id == absent)) else none

  -- `insert`.
  unfoldable pub insert : ℕ → SparseSet C → Entity → C → Option (SparseSet C)
  insert n s e component =
      if ltb e.id n
      then (if s.sparse e.id == absent
          then some (record {
            dense = push_back s.dense component;
            sparse = update s.sparse e.id (length s.dense);
            entities = push_back s.entities e;
          })
          else some (record s { dense = set s.dense (s.sparse e.id) component }))
      else none

  -- The component of an entity whose slot has `owner`, if that is the same generation.
  abbrev pub of_generation : Option Entity → Entity → Option C → Option C
  of_generation none e c = none
  of_generation (some owner) e c = if owner.generation == e.generation then c else none

  -- `at`: none for a null pointer, behind its assertion.
  unfoldable pub at : ℕ → SparseSet C → Entity → Option (Option C)
  at n s e =
      if ltb e.id n
      then (if s.sparse e.id == absent
          then some none
          else some (
              of_generation (get_elem? s.entities (s.sparse e.id)) e
                (get_elem? s.dense (s.sparse e.id))))
      else none

  -- The moves of `remove` once the last component and the last entity are read.
  abbrev pub move_last : SparseSet C → Entity → Option C → Option Entity → SparseSet C
  move_last s e none last_entity = s
  move_last s e (some last) none = s
  move_last s e (some last) (some last_entity) =
      let moved = update s.sparse last_entity.id (s.sparse e.id) in
      record {
        dense = pop_back (set s.dense (s.sparse e.id) last);
        sparse = update moved e.id absent;
        entities = pop_back (set s.entities (moved e.id) last_entity);
      }

  -- `remove`.
  unfoldable pub remove : ℕ → SparseSet C → Entity → SparseSet C
  remove n s e =
      if leb n e.id || (s.sparse e.id == absent) || (length s.dense == 0)
      then s
      else move_last s e (get_elem? s.dense (length s.dense - 1))
          (get_elem? s.entities (length s.entities - 1))
