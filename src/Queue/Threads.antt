-- ===== src/Queue/Threads.antt =====
-- Two threads on one message queue: a call is a row of steps, each with at most one access of an index
-- that the other thread writes. A release store of an index, and the acquire load that sees it, make
-- what was stored before it visible, so the steps of the two threads are interleaved as they are.
pub mod Invariant
pub mod Grants
pub mod Writer
pub mod Reader
pub mod Order
pub mod Progress
mod Tests
use libcsics.Base.{ℕ, List, [], ◌∷◌, ◌++◌, Option, none, some}
use libcsics.Queue.Memory.{Memory}
use libcsics.Queue.Spsc.{
  Queue, SpscError, ok, full, empty, too_big, Slot, acquire_write, commit_write, acquire_read,
  commit_read,
}
use libcsics.Queue.Message.{fill, value_at, new_message_queue}

-- Where `try_push` of a value is: the load of `read_index_`, the rest of `acquire_write`, the
-- construction of the value, `commit_write`.
pub data WriterAt : Type 0 where
  outside : WriterAt
  loaded : List ℕ → ℕ → WriterAt
  opened filled : List ℕ → Slot → WriterAt

-- Where `try_pop` is: the load of `write_index_`, the rest of `acquire_read`, the move out of the
-- slot, `commit_read`.
pub data ReaderAt : Type 0 where
  outside : ReaderAt
  loaded : ℕ → ReaderAt
  opened : Slot → ReaderAt
  taken : Slot → Option (List ℕ) → ReaderAt

-- The queue, the two threads, and what was pushed and popped so far, oldest first.
pub record System : Type 0 where
  pub queue : Queue
  pub writer : WriterAt
  pub reader : ReaderAt
  pub pushed : List (List ℕ)
  pub popped : List (List ℕ)

-- The rest of a call that has loaded the other thread's index: it works on what it loaded, and does
-- not store that index.
abbrev pub seen_by_writer : Queue → ℕ → Queue
seen_by_writer q index = record q { read_index = index }

abbrev pub seen_by_reader : Queue → ℕ → Queue
seen_by_reader q index = record q { write_index = index }

abbrev pub after_acquire_write : System → List ℕ → SpscError × Slot × Queue → System
after_acquire_write s value (ok, slot, q) = record s {
  queue = record q { read_index = s.queue.read_index };
  writer = opened value slot;
}
after_acquire_write s value (error, slot, q) = record s { writer = WriterAt.outside }

abbrev pub after_acquire_read : System → SpscError × Slot × Queue → System
after_acquire_read s (ok, slot, q) = record s {
  queue = record q { write_index = s.queue.write_index };
  reader = ReaderAt.opened slot;
}
after_acquire_read s (error, slot, q) = record s { reader = ReaderAt.outside }

-- The next step of the writer; outside of a call it begins `try_push` of the value.
unfoldable pub writer_step : ℕ → List ℕ → WriterAt → System → System
writer_step t next outside s = record s { writer = loaded next s.queue.read_index }
writer_step t next (loaded value index) s =
    after_acquire_write s value (acquire_write (seen_by_writer s.queue index) t)
writer_step t next (opened value slot) s = record s {
  queue = fill s.queue slot value;
  writer = filled value slot;
}
writer_step t next (filled value slot) s = record s {
  queue = commit_write s.queue slot;
  writer = WriterAt.outside;
  pushed = s.pushed ++ (value ∷ []);
}

abbrev pub and_value : List (List ℕ) → Option (List ℕ) → List (List ℕ)
and_value values none = values
and_value values (some value) = values ++ (value ∷ [])

-- The next step of the reader; outside of a call it begins `try_pop`.
unfoldable pub reader_step : ℕ → ReaderAt → System → System
reader_step t outside s = record s { reader = loaded s.queue.write_index }
reader_step t (loaded index) s = after_acquire_read s (acquire_read (seen_by_reader s.queue index))
reader_step t (opened slot) s = record s { reader = taken slot (value_at t s.queue slot) }
reader_step t (taken slot value) s = record s {
  queue = commit_read s.queue slot;
  reader = ReaderAt.outside;
  popped = and_value s.popped value;
}

-- Whose step is next.
pub data Turn : Type 0 where
  writer : List ℕ → Turn
  reader : Turn

unfoldable pub step : ℕ → Turn → System → System
step t (writer value) s = writer_step t value s.writer s
step t reader s = reader_step t s.reader s

unfoldable pub run : ℕ → List Turn → System → System
run t [] s = s
run t (turn ∷ turns) s = run t turns (step t turn s)

abbrev pub started : Queue → System
started q = record { queue = q; writer = outside; reader = outside; pushed = []; popped = [] }
