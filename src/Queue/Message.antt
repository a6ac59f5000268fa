-- ===== src/Queue/Message.antt =====
-- include/csics/queue/SPSCMessageQueue.hpp: messages of one type `T` over the byte queue. A message
-- is the list of its bytes, `sizeof(T)` of them.
pub mod Frames
pub mod Fifo
use libcsics.Base.{
  ℕ, ◌+◌, ◌-◌, ◌*◌, ◌%◌, List, [], ◌∷◌, Option, none, some, Bool, ltb, if◌then◌else◌,
}
use libcsics.Queue.Memory.{Memory, load, store}
use libcsics.Queue.Spsc.{
  Queue, new_queue, SpscError, ok, full, empty, too_big, Slot, acquire_write, commit_write,
  acquire_read, commit_read,
}

-- `read_size`, of a message of `t` bytes.
unfoldable pub read_size : ℕ → ℕ → ℕ
read_size line t = if ltb line t then t + (line - t % line) else line

unfoldable pub new_message_queue : ℕ → ℕ → Memory → ℕ → Queue
new_message_queue line t bytes capacity = new_queue line bytes (capacity * read_size line t)

-- The value is constructed in the slot.
abbrev pub fill : Queue → Slot → List ℕ → Queue
fill q slot value = elim slot.at [
  | none ↦ q
  | some i ↦ record q { buffer = store q.buffer i value }
]

abbrev pub push_outcome : SpscError × Slot × Queue → List ℕ → SpscError × Queue
push_outcome (e, slot, q) value = elim e [
  | ok ↦ (ok, commit_write (fill q slot value) slot)
  | full ↦ (full, q)
  | empty ↦ (empty, q)
  | too_big ↦ (too_big, q)
]

-- `try_push` of a message of `t` bytes.
unfoldable pub try_push : ℕ → Queue → List ℕ → SpscError × Queue
try_push t q value = push_outcome (acquire_write q t) value

-- `*value_ptr`: the `t` bytes of the slot.
abbrev pub value_at : ℕ → Queue → Slot → Option (List ℕ)
value_at t q slot = elim slot.at [ none ↦ none | some i ↦ some (load q.buffer i t) ]

abbrev pub pop_outcome : ℕ → SpscError × Slot × Queue → SpscError × Option (List ℕ) × Queue
pop_outcome t (e, slot, q) = elim e [
  | ok ↦ (ok, value_at t q slot, commit_read q slot)
  | full ↦ (full, none, q)
  | empty ↦ (empty, none, q)
  | too_big ↦ (too_big, none, q)
]

-- `try_pop`.
unfoldable pub try_pop : ℕ → Queue → SpscError × Option (List ℕ) × Queue
try_pop t q = pop_outcome t (acquire_read q)
