-- ===== src/Queue/Spsc/Overrun.antt =====
-- The check for room does not count the padding at the end of the buffer.
use libcsics.Base.{ℕ, ◌+◌, ◌-◌, ◌%◌, ◌≤◌, ◌<◌, ◌≡◌, List, some, arith, length, take, drop}
use libcsics.Queue.Memory.{load, store, load-store_inside}
use libcsics.Queue.Spsc.{Queue, ok, acquire_write, open_slot, skip_to_start}
use libcsics.Queue.Spsc.Bounds.{IsSane, acquire_write_start}

-- When a message has to go to the start of the buffer and the header of the oldest unread slot lies
-- where the message's bytes go, the write is granted all the same: it gets the slot at offset 8,
-- and once its bytes are copied there, the reader finds eight of them in place of that header.
pub acquire_write_overruns :
    (q : Queue) (size : ℕ) (message : List ℕ)
    → IsSane q
    → length message ≡ size
    → q.read_index < q.write_index
    → q.write_index - q.read_index + (size + 8) < q.capacity
    → q.capacity < q.write_index % q.capacity + (size + 8)
    → 8 ≤ q.read_index % q.capacity
    → q.read_index % q.capacity ≤ size
    → ((acquire_write q size).0 ≡ ok)
      × ((acquire_write q size).1 ≡ record { at = some 8; size = size })
      × ((acquire_write q size).2.read_index ≡ q.read_index)
      × (load (store (acquire_write q size).2.buffer 8 message) (q.read_index % q.capacity) 8
          ≡ take 8 (drop (q.read_index % q.capacity - 8) message))
unfolding open_slot skip_to_start
acquire_write_overruns q size message s len unread fits over above near =
    let e = acquire_write_start q size s fits over in
    (
      rw e,
      rw e,
      rw e,
      load-store_inside (acquire_write q size).2.buffer 8 _ (q.read_index % q.capacity - 8) 8
          message (omega arith) (omega arith),
    )
