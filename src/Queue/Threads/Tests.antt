-- ===== src/Queue/Threads/Tests.antt =====
-- Two threads at a concrete schedule.
use libcsics.Base.{ℕ, ◌<◌, ◌≤◌, ◌≡◌, refl, List, [], ◌∷◌, ◌++◌, length, replicate, arith}
use libcsics.Queue.Message.{new_message_queue, read_size}
use libcsics.Queue.Tests.{blank, four_bytes, small_messages-IsShape, four_lines}
use libcsics.Queue.Spsc.{
  acquire_write, open_slot, skip_to_start, commit_write, new_queue, get_next_power_of_two,
}
use libcsics.Queue.Threads.{Turn, writer, reader, outside, step, run, writer_step, started}
use libcsics.Queue.Threads.Progress.{run-reads}
use libcsics.Queue.Threads.Order.{run-pushed}

-- The reader looks while the first message is half written, and reads it while the second is.
abbrev turns_1 : List Turn
turns_1 =
    writer four_bytes
    ∷ reader
    ∷ writer four_bytes
    ∷ reader
    ∷ writer four_bytes
    ∷ writer four_bytes
    ∷ reader
    ∷ writer (replicate 4 9)
    ∷ reader
    ∷ writer four_bytes
    ∷ reader
    ∷ writer four_bytes
    ∷ reader
    ∷ []

run-pushed_example :
    let s = run 4 turns_1 (started (new_message_queue 64 4 blank 3)) in
    (unread : List (List ℕ)) × (s.pushed ≡ s.popped ++ unread) × (length unread ≤ 4)
run-pushed_example =
    run-pushed 64 4 4 3 blank turns_1 small_messages-IsShape four_lines (ground arith) (omega arith)

-- One message is pushed; then the reader takes its four steps, and the writer begins another.
abbrev before_1 : List Turn
before_1 = writer four_bytes ∷ writer four_bytes ∷ writer four_bytes ∷ writer four_bytes ∷ []

abbrev after_1 : List Turn
after_1 = reader ∷ writer four_bytes ∷ reader ∷ reader ∷ writer four_bytes ∷ reader ∷ []

pushed_one :
    ((run 4 before_1 (started (new_message_queue 64 4 blank 3))).reader ≡ outside)
    × (length (run 4 before_1 (started (new_message_queue 64 4 blank 3))).popped ≡ 0)
    × (length (run 4 before_1 (started (new_message_queue 64 4 blank 3))).pushed ≡ 1)
unfolding run step writer_step acquire_write open_slot skip_to_start commit_write new_message_queue
    read_size new_queue get_next_power_of_two
pushed_one = (refl, refl, refl)

run-reads_example :
    length (run 4 before_1 (started (new_message_queue 64 4 blank 3))).popped
    < length (run 4 after_1 (run 4 before_1 (started (new_message_queue 64 4 blank 3)))).popped
run-reads_example =
    run-reads 64 4 4 3 blank before_1 after_1 small_messages-IsShape four_lines (ground arith)
      (ground arith) (omega arith) pushed_one.0 (omega (arith, pushed_one)) (omega arith)
