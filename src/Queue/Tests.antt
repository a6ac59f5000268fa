-- ===== src/Queue/Tests.antt =====
-- The theorems on the queues at concrete runs.
use libcsics.Base.{
  ℕ, ◌+◌, ◌-◌, ◌*◌, ◌%◌, ◌^◌, ◌<◌, ◌≤◌, max, ◌≡◌, ◌⊎◌, refl, List, [], ◌∷◌, some, arith, replicate,
  take, drop,
}
use libcsics.Queue.Memory.{Memory, load, store}
use libcsics.Queue.Spsc.{
  Queue, ok, full, too_big, no_slot, new_queue, get_next_power_of_two, acquire_write, commit_write,
  acquire_read, commit_read, open_slot, skip_to_start, next_index, read_slot, header_bytes,
  header_padded, header_slot_size,
}
use libcsics.Queue.Spsc.Bounds.{IsSane, Grants, acquire_write_in_bounds}
use libcsics.Queue.Spsc.Uncommitted.{acquire_read-acquire_write}
use libcsics.Queue.Spsc.Overrun.{acquire_write_overruns}
use libcsics.Queue.Spsc.PowerOfTwo.{new_queue-capacity}
use libcsics.Queue.Message.{new_message_queue, read_size}
use libcsics.Queue.Message.Fifo.Window.{IsShape}
use libcsics.Queue.Message.Fifo.Runs.{Call, push, pop, answers, fifo_answers, answers-fifo}

abbrev pub blank : Memory
blank k = 0

new_queue-capacity_example :
    (k : ℕ) × ((new_queue (2 ^ 6) blank 100).capacity ≡ 2 ^ k)
    × (max (2 ^ 6) 100 ≤ 2 ^ k)
    × (2 ^ k < 2 * max (2 ^ 6) 100)
new_queue-capacity_example = new_queue-capacity 6 100 blank (omega arith) (omega arith)

-- Acquire and commit of `size` bytes.
abbrev write_some : Queue → ℕ → Queue
write_some q size = let (e, slot, q') = acquire_write q size in commit_write q' slot

abbrev read_some : Queue → Queue
read_some q = let (e, slot, q') = acquire_read q in commit_read q' slot

-- Three messages of 56 bytes into a buffer of 256, and the first of them read.
abbrev busy : Queue
busy = read_some (write_some (write_some (write_some (new_queue 64 blank 256) 56) 56) 56)

busy_indices : (busy.read_index ≡ 64) × (busy.write_index ≡ 192) × (busy.capacity ≡ 256)
unfolding new_queue get_next_power_of_two acquire_write commit_write acquire_read commit_read
    open_slot skip_to_start next_index read_slot header_bytes header_padded header_slot_size load
    store
busy_indices = (refl, refl, refl)

busy-IsSane : IsSane busy
busy-IsSane = record {
  ordered = omega (arith, busy_indices);
  indices = omega (arith, busy_indices);
  capacity = omega (arith, busy_indices);
  some_room = omega (arith, busy_indices);
}

acquire_write_in_bounds_example :
    ((i : ℕ) × Grants busy 64 i)
    ⊎ ((acquire_write busy 64 ≡ (full, no_slot, busy))
        × (busy.capacity ≤ busy.write_index - busy.read_index + (64 + 8)))
    ⊎ ((acquire_write busy 64 ≡ (too_big, no_slot, busy)) × (busy.capacity < 64))
acquire_write_in_bounds_example = acquire_write_in_bounds busy 64 busy-IsSane

busy_offsets : (busy.read_index % busy.capacity ≡ 64) × (busy.write_index % busy.capacity ≡ 192)
busy_offsets = let (r, w, c) = busy_indices in rw (r, w, c) (refl, refl)

acquire_write_overruns_example :
    ((acquire_write busy 64).0 ≡ ok)
    × ((acquire_write busy 64).1 ≡ record { at = some 8; size = 64 })
    × ((acquire_write busy 64).2.read_index ≡ busy.read_index)
    × (load
          (store (acquire_write busy 64).2.buffer 8 (replicate 64 255))
          (busy.read_index % busy.capacity)
          8
        ≡ take 8 (drop (busy.read_index % busy.capacity - 8) (replicate 64 255)))
acquire_write_overruns_example =
    acquire_write_overruns busy 64 (replicate 64 255) busy-IsSane refl (omega (arith, busy_indices))
      (omega (arith, busy_indices)) (omega (arith, busy_indices, busy_offsets))
      (omega (arith, busy_offsets)) (omega (arith, busy_offsets))

-- Messages of four bytes in a queue made for three of them, which has room for four.
abbrev pub four_bytes : List ℕ
four_bytes = 1 ∷ 2 ∷ 3 ∷ 4 ∷ []

abbrev calls_1 : List Call
calls_1 =
    pop
    ∷ push four_bytes
    ∷ push (replicate 4 9)
    ∷ push four_bytes
    ∷ push four_bytes
    ∷ push four_bytes
    ∷ pop
    ∷ pop
    ∷ push four_bytes
    ∷ []

pub small_messages-IsShape : IsShape 64 4 4
small_messages-IsShape = record {
  some_bytes = omega arith;
  small = omega arith;
  some_lines = omega arith;
  bounded = omega arith;
}

pub four_lines : (new_message_queue 64 4 blank 3).capacity ≡ 64 * 4
unfolding new_message_queue read_size new_queue get_next_power_of_two
four_lines = refl

answers-fifo_example :
    answers 4 (new_message_queue 64 4 blank 3) calls_1 ≡ fifo_answers 4 [] calls_1
answers-fifo_example =
    answers-fifo 64 4 4 3 blank calls_1 small_messages-IsShape four_lines (omega arith)
      (ground arith)

-- A queue whose one message was read, with 64 bytes left up to the end of its buffer.
abbrev drained : Queue
drained = record (new_queue 64 blank 256) { read_index = 192; write_index = 192 }

drained_capacity : drained.capacity ≡ 256
unfolding new_queue get_next_power_of_two
drained_capacity = refl

drained_offset : 192 % drained.capacity ≡ 192
drained_offset = rw drained_capacity refl

drained-IsSane : IsSane drained
drained-IsSane = record {
  ordered = omega arith;
  indices = omega arith;
  capacity = omega (arith, drained_capacity);
  some_room = omega (arith, drained_capacity);
}

acquire_read-acquire_write_example :
    ((acquire_write drained 100).0 ≡ ok)
    × ((acquire_read (acquire_write drained 100).2).0 ≡ ok)
    × ((acquire_read (acquire_write drained 100).2).1 ≡ (acquire_write drained 100).1)
acquire_read-acquire_write_example =
    acquire_read-acquire_write drained 100 drained-IsSane refl (omega (arith, drained_capacity))
      (omega (arith, drained_capacity, drained_offset)) (omega (arith, drained_offset))
