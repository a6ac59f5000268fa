-- ===== src/Queue/Threads/Grants.antt =====
-- What the writer is granted by what it has seen of the free lines.
use libcsics.Base.{
  ℕ, ◌+◌, ◌-◌, ◌*◌, ◌%◌, ◌^◌, ◌≤◌, ◌<◌, ◌≡◌, sym, ap, ap₂, ◌∙◌, List, length, arith,
}
use libcsics.Queue.Memory.{Memory, store}
use libcsics.Queue.Spsc.{Queue, full, no_slot, acquire_write, open_slot}
use libcsics.Queue.Spsc.Bounds.{IsSane, acquire_write_here, acquire_write_full}
use libcsics.Queue.Message.Frames.{offset, frame_end, mod-frame, span, times_le}
use libcsics.Queue.Message.Fifo.Window.{IsShape, Represents, Framed-store}
use libcsics.Queue.Threads.{seen_by_writer}
use native.Mathlib.Nat.{mod-lt}

-- The queue with other bytes in frame e.
abbrev pub with_buffer : Queue → Memory → Queue
with_buffer q m = record q { buffer = m }

seen-IsSane :
    (line n t : ℕ) (q : Queue) (k j : ℕ) (ms : List (List ℕ))
    → IsShape line n t
    → Represents line n t q k ms
    → q.write_index < 2 ^ 62
    → j ≤ k
    → IsSane (seen_by_writer q (line * j))
seen-IsSane line n t q k j ms s r far past =
    let le = times_le line j (k + length ms) (omega arith) in
    record {
      ordered = omega (arith, r);
      indices = omega arith;
      capacity = omega (arith, r, s);
      some_room = omega (arith, r, s, frame_end line n 0 s.some_lines);
    }

-- What the writer sees of the free lines: it is granted the next frame, or told that all are in use.
pub acquire_write-granted :
    (line n t : ℕ) (q : Queue) (k j : ℕ) (ms : List (List ℕ))
    → IsShape line n t
    → Represents line n t q k ms
    → q.write_index < 2 ^ 62
    → j ≤ k
    → k + length ms < j + n
    → acquire_write (seen_by_writer q (line * j)) t
      ≡ open_slot (seen_by_writer q (line * j)) (offset line n (k + length ms)) t
acquire_write-granted line n t q k j ms s r far past room =
    let e = k + length ms in
    let back : j + (e - j) ≡ e = omega arith in
    let used : line * e ≡ line * j + line * (e - j) =
      sym (ap (λ (i : ℕ). line * i) back) ∙ span line j (e - j) in
    let at : q.write_index % q.capacity ≡ offset line n e =
      ap₂ ◌%◌ r.next r.lines ∙ mod-frame line n e (omega (arith, s)) s.some_lines in
    acquire_write_here (seen_by_writer q (line * j)) t (seen-IsSane line n t q k j ms s r far past)
      (omega (arith, r, s, used, frame_end line n (e - j) (omega arith)))
      (omega (arith, at, r, s, frame_end line n (e % n) (mod-lt e s.some_lines)))
    ∙ ap (λ (i : ℕ). open_slot (seen_by_writer q (line * j)) i t) at

pub acquire_write-refused :
    (line n t : ℕ) (q : Queue) (k j : ℕ) (ms : List (List ℕ))
    → IsShape line n t
    → Represents line n t q k ms
    → q.write_index < 2 ^ 62
    → j ≤ k
    → j + n ≤ k + length ms
    → acquire_write (seen_by_writer q (line * j)) t ≡ (full, no_slot, seen_by_writer q (line * j))
acquire_write-refused line n t q k j ms s r far past none_left =
    let le = times_le line (j + n) (k + length ms) none_left in
    acquire_write_full (seen_by_writer q (line * j)) t (seen-IsSane line n t q k j ms s r far past)
      (omega (arith, r, s, frame_end line n 0 s.some_lines))
      (omega (arith, r, s, le, span line j n))

-- What the writer stores in frame e leaves the window as it is.
pub stored :
    (line n t : ℕ) (q : Queue) (k e i : ℕ) (ms : List (List ℕ)) (bs : List ℕ)
    → IsShape line n t
    → Represents line n t q k ms
    → e ≡ k + length ms
    → e < k + n
    → offset line n e ≤ i
    → i + length bs ≤ offset line n e + line
    → Represents line n t (with_buffer q (store q.buffer i bs)) k ms
stored line n t q k e i ms bs s r at room above below = record {
  line_size = r.line_size;
  lines = r.lines;
  oldest = r.oldest;
  next = r.next;
  few = r.few;
  framed = Framed-store line n t q.buffer k ms e i bs s (omega arith) room above below r.framed;
}
