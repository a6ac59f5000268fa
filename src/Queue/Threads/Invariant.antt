-- ===== src/Queue/Threads/Invariant.antt =====
-- What holds between any two steps.
use libcsics.Base.{
  ℕ, ◌+◌, ◌*◌, ◌≤◌, ◌<◌, ◌≡◌, ap, ◌∙◌, List, ◌∷◌, ◌++◌, some, length, length-append,
}
use libcsics.Queue.Memory.{Memory, load}
use libcsics.Queue.Spsc.{Slot, header_bytes}
use libcsics.Queue.Message.Frames.{offset}
use libcsics.Queue.Message.Fifo.Window.{Represents}
use libcsics.Queue.Threads.{WriterAt, ReaderAt, outside, loaded, opened, filled, taken, System}

-- The slot of frame e.
abbrev pub slot_of : ℕ → ℕ → ℕ → ℕ → Slot
slot_of line n t e = record { at = some (offset line n e + 8); size = t }

-- The writer has seen that the reader was past frame j; its slot is that of frame e, which is free.
abbrev pub Writing : (line n t : ℕ) → Memory → (k e : ℕ) → WriterAt → Type 0
Writing line n t m k e outside = Unit
Writing line n t m k e (loaded value index) =
    (length value ≡ t) × (j : ℕ) × (index ≡ line * j) × (j ≤ k)
Writing line n t m k e (opened value slot) =
    (length value ≡ t)
    × (slot ≡ slot_of line n t e)
    × (e < k + n)
    × (load m (offset line n e) 8 ≡ header_bytes 0 t)
Writing line n t m k e (filled value slot) =
    (length value ≡ t)
    × (slot ≡ slot_of line n t e)
    × (e < k + n)
    × (load m (offset line n e) 8 ≡ header_bytes 0 t)
    × (load m (offset line n e + 8) t ≡ value)

-- The reader has seen that the writer was past frame j; its slot is that of frame k.
abbrev pub Reading : (line n t : ℕ) → (k e : ℕ) → List (List ℕ) → ReaderAt → Type 0
Reading line n t k e ms outside = Unit
Reading line n t k e ms (loaded index) = (j : ℕ) × (index ≡ line * j) × (j ≤ e)
Reading line n t k e ms (opened slot) = (slot ≡ slot_of line n t k) × (k < e)
Reading line n t k e ms (taken slot value) =
    (slot ≡ slot_of line n t k)
    × (msg : List ℕ) × (rest : List (List ℕ)) × (ms ≡ msg ∷ rest)
    × (value ≡ some msg)

pub record IsSafe (line n t : ℕ) (s : System) (ms : List (List ℕ)) : Type 0 where
  pub holds : Represents line n t s.queue (length s.popped) ms
  pub split : s.pushed ≡ s.popped ++ ms
  pub writing : Writing line n t s.queue.buffer (length s.popped) (length s.pushed) s.writer
  pub reading : Reading line n t (length s.popped) (length s.pushed) ms s.reader

-- How many messages were pushed.
pub IsSafe-end :
    (line n t : ℕ) (s : System) (ms : List (List ℕ))
    → IsSafe line n t s ms
    → length s.pushed ≡ length s.popped + length ms
IsSafe-end line n t s ms h = ap length h.split ∙ length-append s.popped ms
