-- ===== src/Queue/Threads/Order.antt =====
-- What the two threads agree on, however their steps are interleaved.
use libcsics.Base.{
  ℕ, suc, ◌+◌, ◌*◌, ◌^◌, ◌≤◌, ◌<◌, ◌≡◌, refl, ap, ◌∙◌, List, [], ◌∷◌, ◌++◌, length, arith,
}
use libcsics.Queue.Memory.{Memory}
use libcsics.Queue.Message.{new_message_queue}
use libcsics.Queue.Message.Frames.{times_le}
use libcsics.Queue.Message.Fifo.Window.{IsShape}
use libcsics.Queue.Message.Fifo.Runs.{new-Represents}
use libcsics.Queue.Threads.{System, Turn, writer, reader, step, run, started}
use libcsics.Queue.Threads.Invariant.{IsSafe, IsSafe-end}
use libcsics.Queue.Threads.Writer.{writer_step-IsSafe}
use libcsics.Queue.Threads.Reader.{reader_step-IsSafe}

-- The values that the writer is given have `t` bytes.
abbrev pub AllGiven : ℕ → List Turn → Type 0
AllGiven t [] = Unit
AllGiven t (writer value ∷ turns) = (length value ≡ t) × AllGiven t turns
AllGiven t (reader ∷ turns) = AllGiven t turns

-- The state after the turns, and the unread messages in it.
pub record Ends (line n t : ℕ) (s : System) : Type 0 where
  pub unread : List (List ℕ)
  pub safe : IsSafe line n t s unread

-- The index of the writer with some turns to come.
pub near :
    (line n t : ℕ) (s : System) (ms : List (List ℕ)) (more : ℕ)
    → IsSafe line n t s ms
    → line * (length s.pushed + more) < 2 ^ 62
    → s.queue.write_index < 2 ^ 62
near line n t s ms more h far =
    let end = IsSafe-end line n t s ms h in
    let at : s.queue.write_index ≡ line * length s.pushed =
      h.holds.next ∙ ap (λ (e : ℕ). line * e) (omega (arith, end)) in
    omega (arith, at, times_le line (length s.pushed) (length s.pushed + more) (omega arith))

pub run-IsSafe :
    (line n t : ℕ) (turns : List Turn) (s : System) (ms : List (List ℕ))
    → IsShape line n t
    → IsSafe line n t s ms
    → AllGiven t turns
    → line * (length s.pushed + length turns) < 2 ^ 62
    → Ends line n t (run t turns s)
unfolding run step
run-IsSafe line n t [] s ms shape h given far = record { unread = ms; safe = h }
run-IsSafe line n t (writer value ∷ turns) s ms shape h (sized, given) far =
    let (ns, after, few) =
      writer_step-IsSafe line n t s ms value s.writer shape h
        (near line n t s ms (suc (length turns)) h far) sized h.writing in
    let le =
      times_le line (length (step t (writer value) s).pushed + length turns)
        (length s.pushed + suc (length turns)) (omega arith) in
    run-IsSafe line n t turns (step t (writer value) s) ns shape after given (omega arith)
run-IsSafe line n t (reader ∷ turns) s ms shape h given far =
    let (ns, after, few) =
      reader_step-IsSafe line n t s ms s.reader shape h
        (near line n t s ms (suc (length turns)) h far) h.reading in
    let le =
      times_le line (length (step t reader s).pushed + length turns)
        (length s.pushed + suc (length turns)) (omega arith) in
    run-IsSafe line n t turns (step t reader s) ns shape after given (omega arith)

-- However the steps of the two threads are interleaved, on a new queue for messages of `t` bytes, at
-- least one, that with their header are smaller than a cache line, with a buffer of `n` lines below
-- 2 ^ 62 bytes, and short of an index of 2 ^ 62: the messages that were popped are the first of those
-- that were pushed, whole and in order, and at most `n` of these are still unread.
pub run-pushed :
    (line n t capacity : ℕ) (bytes : Memory) (turns : List Turn)
    → IsShape line n t
    → (new_message_queue line t bytes capacity).capacity ≡ line * n
    → AllGiven t turns
    → line * length turns < 2 ^ 62
    → let s = run t turns (started (new_message_queue line t bytes capacity)) in
      (unread : List (List ℕ)) × (s.pushed ≡ s.popped ++ unread) × (length unread ≤ n)
run-pushed line n t capacity bytes turns shape size given far =
    let ends =
      run-IsSafe line n t turns (started (new_message_queue line t bytes capacity)) [] shape
        (record {
          holds = new-Represents line n t capacity bytes size;
          split = refl;
          writing = tt;
          reading = tt;
        })
        given (omega (arith, ap (λ (j : ℕ). line * j) (none_yet (length turns)))) in
    (ends.unread, ends.safe.split, ends.safe.holds.few)
  where
    none_yet : (c : ℕ) → 0 + c ≡ c
    none_yet c = omega arith
