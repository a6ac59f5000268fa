-- ===== src/Queue/Spsc.antt =====
-- src/queue/SPSCQueue.cpp. `size_t` is a number below 2 ^ 64 with its wrap written out. The capacity
-- and the cache line are powers of two, so `x & (n - 1)` is `x % n` and `x & ~(n - 1)` drops that
-- remainder. Each call is one step: the two threads' calls interleave as wholes.
pub mod Bounds
pub mod Overrun
pub mod Uncommitted
pub mod PowerOfTwo
pub use libcsics.Base.{add_size, sub_size}
use libcsics.Base.{
  ℕ, zero, suc, ◌+◌, ◌-◌, ◌*◌, ◌/◌, ◌%◌, ◌^◌, max, bit_or, Bool, Option, none, some, List, ltb, leb,
  ◌==◌, ◌||◌, if◌then◌else◌,
}
use libcsics.Wire.{le_bytes, of_bytes}
use libcsics.Queue.Memory.{Memory, load, store}

-- `SPSCError`.
pub data SpscError : Type 0 where
  ok full empty too_big : SpscError

-- `get_next_power_of_two` with a 64-bit `size_t`.
smear : ℕ → ℕ → ℕ
smear k v = bit_or v (v / 2 ^ k)

unfoldable pub get_next_power_of_two : ℕ → ℕ
unfolding smear
get_next_power_of_two v =
    add_size (smear 32 (smear 16 (smear 8 (smear 4 (smear 2 (smear 1 (sub_size v 1))))))) 1

-- `SPSCQueue`, with the cache line size that it was compiled for.
pub record Queue : Type 0 where
  pub line : ℕ
  pub capacity : ℕ
  pub buffer : Memory
  pub read_index : ℕ
  pub write_index : ℕ

-- The constructor; the buffer's bytes are what the allocation holds.
unfoldable pub new_queue : ℕ → Memory → ℕ → Queue
new_queue line bytes capacity = record {
  line = line;
  capacity = max line (get_next_power_of_two capacity);
  buffer = bytes;
  read_index = 0;
  write_index = 0;
}

-- `QueueSlotHeader`: eight bytes, `padded` in the lowest bit and `size` in the others.
abbrev pub header_size : ℕ
header_size = 8

unfoldable pub header_bytes : ℕ → ℕ → List ℕ
header_bytes padded size = le_bytes 8 (padded + 2 * size)

unfoldable pub header_padded : Memory → ℕ → ℕ
header_padded m i = of_bytes (load m i 8) % 2

unfoldable pub header_slot_size : Memory → ℕ → ℕ
header_slot_size m i = of_bytes (load m i 8) / 2

-- `ReadSlot` and `WriteSlot`: an offset into the buffer, or none for a null pointer, and a size.
pub record Slot : Type 0 where
  pub at : Option ℕ
  pub size : ℕ

abbrev pub no_slot : Slot
no_slot = record { at = none; size = 0 }

abbrev pub mod_index : Queue → ℕ → ℕ
mod_index q index = index % q.capacity

-- The padding header at the end of the buffer, and the step over it.
unfoldable pub skip_to_start : Queue → ℕ → Queue
skip_to_start q pad_size = record q {
  buffer = store q.buffer (mod_index q q.write_index) (header_bytes 1 pad_size);
  write_index = add_size q.write_index (add_size pad_size header_size);
}

-- The header of the slot at offset `i`, and the slot behind it.
unfoldable pub open_slot : Queue → ℕ → ℕ → SpscError × Slot × Queue
open_slot q i size = (
  ok,
  record { at = some (i + header_size); size = size },
  record q { buffer = store q.buffer i (header_bytes 0 size) },
)

-- `acquire_write`.
unfoldable pub acquire_write : Queue → ℕ → SpscError × Slot × Queue
acquire_write q size =
    let i = mod_index q q.write_index in
    let required = add_size size header_size in
    if ltb q.capacity size
    then (too_big, no_slot, q)
    else (if leb q.capacity (add_size (sub_size q.write_index q.read_index) required)
        then (full, no_slot, q)
        else (if ltb q.capacity (add_size i required)
            then open_slot (skip_to_start q (add_size (sub_size q.capacity i) header_size)) 0 size
            else open_slot q i size))

-- `new_index` of a commit, rounded up to the cache line.
unfoldable pub next_index : Queue → ℕ → ℕ → ℕ
next_index q index size =
    let new_index = add_size (add_size (add_size index size) header_size) (q.line - 1) in
    new_index - new_index % q.line

abbrev pub is_null : Slot → Bool
is_null slot = elim slot.at [ none ↦ Bool.true | some i ↦ slot.size == 0 ]

-- `commit_write`.
unfoldable pub commit_write : Queue → Slot → Queue
commit_write q slot =
    if is_null slot then q else record q { write_index = next_index q q.write_index slot.size }

-- The slot at offset `i`, by its header.
unfoldable pub read_slot : Queue → ℕ → SpscError × Slot × Queue
read_slot q i = (ok, record { at = some (i + header_size); size = header_slot_size q.buffer i }, q)

-- `acquire_read`.
unfoldable pub acquire_read : Queue → SpscError × Slot × Queue
acquire_read q =
    let i = mod_index q q.read_index in
    if leb q.write_index q.read_index
    then (empty, no_slot, q)
    else (if header_padded q.buffer i == 0
        then read_slot q i
        else read_slot
            (record q {
              read_index =
                  add_size q.read_index (add_size (header_slot_size q.buffer i) header_size);
            })
            0)

-- `commit_read`.
unfoldable pub commit_read : Queue → Slot → Queue
commit_read q slot =
    if is_null slot then q else record q { read_index = next_index q q.read_index slot.size }

-- `has_pending_data` and `empty`.
unfoldable pub has_pending_data : Queue → Bool
has_pending_data q = ltb q.read_index q.write_index

unfoldable pub is_empty : Queue → Bool
is_empty q = q.read_index == q.write_index
