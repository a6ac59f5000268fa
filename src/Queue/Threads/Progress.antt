-- ===== src/Queue/Threads/Progress.antt =====
-- How many steps of its own the reader needs for a message.
use libcsics.Base.{
  ℕ, suc, ◌+◌, ◌*◌, ◌^◌, ◌≤◌, ◌<◌, ◌≡◌, ◌⊎◌, inl, inr, refl, ap, List, [], ◌∷◌, Option, none, some,
  length, length-append, arith,
}
use libcsics.Queue.Memory.{Memory}
use libcsics.Queue.Spsc.{
  Queue, Slot, SpscError, ok, full, empty, too_big, acquire_write, acquire_read,
}
use libcsics.Queue.Message.{new_message_queue}
use libcsics.Queue.Message.Frames.{times_le}
use libcsics.Queue.Message.Fifo.Window.{IsShape, Represents}
use libcsics.Queue.Message.Fifo.Runs.{new-Represents}
use libcsics.Queue.Threads.{
  System, WriterAt, ReaderAt, outside, loaded, opened, filled, taken, Turn, writer, reader,
  writer_step, reader_step, step, run, started, seen_by_writer, seen_by_reader, after_acquire_write,
  after_acquire_read, and_value,
}
use libcsics.Queue.Threads.Invariant.{Reading, IsSafe, IsSafe-end}
use libcsics.Queue.Threads.Writer.{writer_step-IsSafe}
use libcsics.Queue.Threads.Reader.{reader_step-IsSafe, acquire_read-granted}
use libcsics.Queue.Threads.Order.{AllGiven, near, run-IsSafe}

-- The steps of the reader among the turns.
abbrev pub reads : List Turn → ℕ
reads [] = 0
reads (writer value ∷ turns) = reads turns
reads (reader ∷ turns) = suc (reads turns)

-- The reader has a message to pop, and m steps are enough for it.
abbrev Waiting : (line k e m : ℕ) → ReaderAt → Type 0
Waiting line k e m outside = (k < e) × (4 ≤ m)
Waiting line k e m (loaded index) = (line * k < index) × (3 ≤ m)
Waiting line k e m (opened slot) = 2 ≤ m
Waiting line k e m (taken slot value) = 1 ≤ m

Waiting-now : (line k e : ℕ) (at : ReaderAt) → Waiting line k e 0 at → ⊥
Waiting-now line k e outside h = omega arith
Waiting-now line k e (loaded index) h = omega arith
Waiting-now line k e (opened slot) h = omega arith
Waiting-now line k e (taken slot value) h = omega arith

Waiting-later :
    (line k e e' m : ℕ) (at : ReaderAt) → e ≤ e' → Waiting line k e m at → Waiting line k e' m at
Waiting-later line k e e' m outside le (more, steps) = (omega arith, steps)
Waiting-later line k e e' m (loaded index) le h = h
Waiting-later line k e e' m (opened slot) le h = h
Waiting-later line k e e' m (taken slot value) le h = h

-- What the writer leaves to the reader.
record Leaves (s s' : System) : Type 0 where
  reader : s'.reader ≡ s.reader
  popped : s'.popped ≡ s.popped
  more : length s.pushed ≤ length s'.pushed
  few : length s'.pushed ≤ length s.pushed + 1

after_acquire_write-Leaves :
    (s : System) (value : List ℕ) (o : SpscError × Slot × Queue)
    → Leaves s (after_acquire_write s value o)
after_acquire_write-Leaves s value (ok, slot, q) = record {
  reader = refl;
  popped = refl;
  more = omega arith;
  few = omega arith;
}
after_acquire_write-Leaves s value (full, slot, q) = record {
  reader = refl;
  popped = refl;
  more = omega arith;
  few = omega arith;
}
after_acquire_write-Leaves s value (empty, slot, q) = record {
  reader = refl;
  popped = refl;
  more = omega arith;
  few = omega arith;
}
after_acquire_write-Leaves s value (too_big, slot, q) = record {
  reader = refl;
  popped = refl;
  more = omega arith;
  few = omega arith;
}

writer_step-Leaves :
    (t : ℕ) (value : List ℕ) (at : WriterAt) (s : System) → Leaves s (writer_step t value at s)
unfolding writer_step
writer_step-Leaves t value outside s = record {
  reader = refl;
  popped = refl;
  more = omega arith;
  few = omega arith;
}
writer_step-Leaves t value (loaded given index) s =
    after_acquire_write-Leaves s given (acquire_write (seen_by_writer s.queue index) t)
writer_step-Leaves t value (opened given slot) s = record {
  reader = refl;
  popped = refl;
  more = omega arith;
  few = omega arith;
}
writer_step-Leaves t value (filled given slot) s =
    let size = length-append s.pushed (given ∷ []) in
    record { reader = refl; popped = refl; more = omega arith; few = omega arith }

-- What a step of the reader does to both lists.
record Keeps (s s' : System) : Type 0 where
  pushed : s'.pushed ≡ s.pushed
  popped : length s.popped ≤ length s'.popped

after_acquire_read-Keeps :
    (s : System) (o : SpscError × Slot × Queue) → Keeps s (after_acquire_read s o)
after_acquire_read-Keeps s (ok, slot, q) = record { pushed = refl; popped = omega arith }
after_acquire_read-Keeps s (full, slot, q) = record { pushed = refl; popped = omega arith }
after_acquire_read-Keeps s (empty, slot, q) = record { pushed = refl; popped = omega arith }
after_acquire_read-Keeps s (too_big, slot, q) = record { pushed = refl; popped = omega arith }

and_value-le :
    (values : List (List ℕ)) (o : Option (List ℕ)) → length values ≤ length (and_value values o)
and_value-le values none = omega arith
and_value-le values (some value) = omega (arith, length-append values (value ∷ []))

reader_step-Keeps : (t : ℕ) (at : ReaderAt) (s : System) → Keeps s (reader_step t at s)
unfolding reader_step
reader_step-Keeps t outside s = record { pushed = refl; popped = omega arith }
reader_step-Keeps t (loaded index) s =
    after_acquire_read-Keeps s (acquire_read (seen_by_reader s.queue index))
reader_step-Keeps t (opened slot) s = record { pushed = refl; popped = omega arith }
reader_step-Keeps t (taken slot value) s = record {
  pushed = refl;
  popped = and_value-le s.popped value;
}

run_bounds :
    (t : ℕ) (turns : List Turn) (s : System)
    → (length s.popped ≤ length (run t turns s).popped)
      × (length (run t turns s).pushed ≤ length s.pushed + length turns)
unfolding run step
run_bounds t [] s = (omega arith, omega arith)
run_bounds t (writer value ∷ turns) s =
    let one = writer_step-Leaves t value s.writer s in
    let (popped, pushed) = run_bounds t turns (step t (writer value) s) in
    (omega (arith, ap length one.popped, popped), omega (arith, one.few, pushed))
run_bounds t (reader ∷ turns) s =
    let one = reader_step-Keeps t s.reader s in
    let (popped, pushed) = run_bounds t turns (step t reader s) in
    (omega (arith, one.popped, popped), omega (arith, ap length one.pushed, pushed))

-- A step of a reader that waits pops a message, or leaves it to wait for one step less.
abbrev Advances : (line m : ℕ) → System → System → Type 0
Advances line m s s' =
    (length s.popped < length s'.popped)
    ⊎ ((s'.popped ≡ s.popped) × Waiting line (length s.popped) (length s.pushed) m s'.reader)

granted-Advances :
    (line n t m : ℕ) (s : System) (ms : List (List ℕ)) (j : ℕ)
    → IsShape line n t
    → Represents line n t s.queue (length s.popped) ms
    → length s.popped < j
    → j ≤ length s.popped + length ms
    → 2 ≤ m
    → Advances line m s (after_acquire_read s (acquire_read (seen_by_reader s.queue (line * j))))
granted-Advances line n t m s [] j shape holds more le steps = absurd (omega arith)
granted-Advances line n t m s (msg ∷ ms) j shape holds more le steps =
    rw (acquire_read-granted line n t s.queue (length s.popped) j msg ms shape holds more)
      (inr (refl, steps))

reader_step-Advances :
    (line n t m : ℕ) (s : System) (ms : List (List ℕ)) (at : ReaderAt)
    → IsShape line n t
    → IsSafe line n t s ms
    → Reading line n t (length s.popped) (length s.pushed) ms at
    → Waiting line (length s.popped) (length s.pushed) (suc m) at
    → Advances line m s (reader_step t at s)
unfolding reader_step
reader_step-Advances line n t m s ms outside shape h known (more, steps) =
    let end = IsSafe-end line n t s ms h in
    let le = times_le line (length s.popped + 1) (length s.popped + length ms) (omega arith) in
    inr (refl, (grind (arith, shape, h.holds.next), omega arith))
reader_step-Advances line n t m s ms (loaded index) shape h (j, same, before) (more, steps) =
    let past : length s.popped < j = grind arith in
    rw same (
      granted-Advances line n t m s ms j shape h.holds past
        (omega (arith, IsSafe-end line n t s ms h)) (omega arith))
reader_step-Advances line n t m s ms (opened slot) shape h known steps = inr (refl, omega arith)
reader_step-Advances line n t m s ms (taken slot value) shape h (same, msg, rest, all, is_msg)
      steps =
    rw is_msg (inl (omega (arith, length-append s.popped (msg ∷ []))))

run-Waiting :
    (line n t : ℕ) (turns : List Turn) (s : System) (ms : List (List ℕ))
    → IsShape line n t
    → IsSafe line n t s ms
    → AllGiven t turns
    → line * (length s.pushed + length turns) < 2 ^ 62
    → Waiting line (length s.popped) (length s.pushed) (reads turns) s.reader
    → length s.popped < length (run t turns s).popped
unfolding run step
run-Waiting line n t [] s ms shape h given far waits =
    absurd (Waiting-now line (length s.popped) (length s.pushed) s.reader waits)
run-Waiting line n t (writer value ∷ turns) s ms shape h (sized, given) far waits =
    let s' = step t (writer value) s in
    let left = writer_step-Leaves t value s.writer s in
    let (ns, after, few) =
      writer_step-IsSafe line n t s ms value s.writer shape h
        (near line n t s ms (suc (length turns)) h far) sized h.writing in
    let le =
      times_le line (length s'.pushed + length turns) (length s.pushed + suc (length turns))
        (omega (arith, left.few)) in
    let later =
      Waiting-later line (length s.popped) (length s.pushed) (length s'.pushed) (reads turns)
        s.reader left.more waits in
    omega (
      arith,
      ap length left.popped,
      run-Waiting line n t turns s' ns shape after given (omega arith)
          (rw (left.popped, left.reader) later),
    )
run-Waiting line n t (reader ∷ turns) s ms shape h given far waits =
    let s' = step t reader s in
    let one = reader_step-Keeps t s.reader s in
    let (ns, after, few) =
      reader_step-IsSafe line n t s ms s.reader shape h
        (near line n t s ms (suc (length turns)) h far) h.reading in
    let le =
      times_le line (length s'.pushed + length turns) (length s.pushed + suc (length turns))
        (omega (arith, ap length one.pushed)) in
    elim (reader_step-Advances line n t (reads turns) s ms s.reader shape h h.reading waits) [
      | inl popped ↦ omega (arith, popped, (run_bounds t turns s').0)
      | inr (same, later) ↦ omega (
        arith,
        ap length same,
        run-Waiting line n t turns s' ns shape after given (omega (arith, le, far))
            (rw (same, one.pushed) later),
      )
    ]

-- On the queue of `run-pushed`, in any state that the two threads reach, a reader that is outside of a
-- call while a message is unread pops one within its next four steps, whatever steps of the writer
-- come between them.
pub run-reads :
    (line n t capacity : ℕ) (bytes : Memory) (before after : List Turn)
    → IsShape line n t
    → (new_message_queue line t bytes capacity).capacity ≡ line * n
    → AllGiven t before
    → AllGiven t after
    → line * (length before + length after) < 2 ^ 62
    → (run t before (started (new_message_queue line t bytes capacity))).reader ≡ outside
    → length (run t before (started (new_message_queue line t bytes capacity))).popped
      < length (run t before (started (new_message_queue line t bytes capacity))).pushed
    → 4 ≤ reads after
    → length (run t before (started (new_message_queue line t bytes capacity))).popped
      < length
          (run t after (run t before (started (new_message_queue line t bytes capacity)))).popped
run-reads line n t capacity bytes before after shape size given_before given_after far idle unread
      steps =
    let q = new_message_queue line t bytes capacity in
    let s = run t before (started q) in
    let le = times_le line (0 + length before) (length before + length after) (omega arith) in
    let ends =
      run-IsSafe line n t before (started q) [] shape
        (record {
          holds = new-Represents line n t capacity bytes size;
          split = refl;
          writing = tt;
          reading = tt;
        })
        given_before (omega arith) in
    let few : length s.pushed + length after ≤ length before + length after =
      omega (arith, (run_bounds t before (started q)).1) in
    let le' = times_le line (length s.pushed + length after) (length before + length after) few in
    run-Waiting line n t after s ends.unread shape ends.safe given_after (omega arith)
      (rw idle (unread, steps))
