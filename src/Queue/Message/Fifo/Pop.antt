-- ===== src/Queue/Message/Fifo/Pop.antt =====
-- `try_pop` on a queue that holds the messages of a window.
use libcsics.Base.{
  ℕ, suc, ◌+◌, ◌*◌, ◌/◌, ◌%◌, ◌^◌, ◌<◌, ◌≡◌, ◌∙◌, sym, ap, ap₂, List, [], ◌∷◌, length, arith, some,
  none, Option, ne→not-==, lt→not-leb, le→leb,
}
use libcsics.Wire.{of_bytes}
use libcsics.Wire.Bytes.{of_bytes-le_bytes}
use libcsics.Queue.Memory.{load}
use libcsics.Queue.Spsc.{
  Queue, SpscError, ok, empty, header_bytes, header_padded, header_slot_size, acquire_read,
  read_slot, commit_read, next_index,
}
use libcsics.Queue.Message.{try_pop}
use libcsics.Queue.Message.Frames.{offset, mod-frame, frame_end, grow}
use libcsics.Queue.Message.Fifo.Window.{IsShape, Represents}
use libcsics.Queue.Message.Fifo.Push.{next_index-frame}

-- What a header says of a message of `t` bytes.
pub header_value : (t : ℕ) (bs : List ℕ) → t < 2 ^ 62 → bs ≡ header_bytes 0 t → of_bytes bs ≡ 2 * t
unfolding header_bytes
header_value t bs small e =
    let v = of_bytes-le_bytes 8 (0 + 2 * t) (omega arith) in ap of_bytes e ∙ v ∙ omega arith

-- A slot whose header has no padding bit.
pub acquire_read-at :
    (q : Queue) (i t : ℕ)
    → q.read_index < q.write_index
    → q.read_index % q.capacity ≡ i
    → of_bytes (load q.buffer i 8) ≡ 2 * t
    → acquire_read q ≡ (ok, record { at = some (i + 8); size = t }, q)
unfolding acquire_read header_padded header_slot_size read_slot
acquire_read-at q i t more at value =
    let even : (2 * t) % 2 ≡ 0 = omega arith in
    let half : (2 * t) / 2 ≡ t = omega arith in
    rw (lt→not-leb q.write_index q.read_index more, at, value, even, half)

acquire_read-frame :
    (line n t : ℕ) (q : Queue) (k : ℕ) (msg : List ℕ) (ms : List (List ℕ))
    → IsShape line n t
    → Represents line n t q k (msg ∷ ms)
    → acquire_read q ≡ (ok, record { at = some (offset line n k + 8); size = t }, q)
acquire_read-frame line n t q k msg ms s r =
    acquire_read-at q (offset line n k) t
      (omega (arith, r, grow line k (length ms) (omega (arith, s))))
      (ap₂ ◌%◌ r.oldest r.lines ∙ mod-frame line n k (omega (arith, s)) s.some_lines)
      (header_value t (load q.buffer (offset line n k) 8)
        (omega (arith, s, frame_end line n 0 s.some_lines)) r.framed.0)

-- The queue after a message of `t` bytes is read and committed.
abbrev popped : Queue → ℕ → Queue
popped q t = record q { read_index = next_index q q.read_index t }

try_pop-frame :
    (t : ℕ) (q : Queue) (i : ℕ)
    → 0 < t
    → acquire_read q ≡ (ok, record { at = some i; size = t }, q)
    → try_pop t q ≡ (ok, some (load q.buffer i t), popped q t)
unfolding try_pop commit_read next_index
try_pop-frame t q i pos e = rw (e, ne→not-== t 0 (omega arith))

-- The window without its oldest message.
pub popped-Represents :
    (line n t : ℕ) (q : Queue) (k : ℕ) (msg : List ℕ) (ms : List (List ℕ))
    → IsShape line n t
    → Represents line n t q k (msg ∷ ms)
    → q.write_index < 2 ^ 62
    → Represents line n t (record q { read_index = next_index q q.read_index t }) (suc k) ms
popped-Represents line n t q k msg ms s r far = record {
  line_size = r.line_size;
  lines = r.lines;
  oldest =
      next_index-frame line n t q q.read_index k s r.line_size r.oldest
        (omega (arith, r, grow line k (length ms) (omega (arith, s))))
      ∙ ap (λ (j : ℕ). line * j) (omega arith);
  next = r.next ∙ ap (λ (j : ℕ). line * j) (omega arith);
  few = omega (arith, r);
  framed = r.framed.2;
}

pub try_pop-Represents :
    (line n t : ℕ) (q : Queue) (k : ℕ) (msg : List ℕ) (ms : List (List ℕ))
    → IsShape line n t
    → Represents line n t q k (msg ∷ ms)
    → q.write_index < 2 ^ 62
    → ((try_pop t q).0 ≡ ok)
      × ((try_pop t q).1 ≡ some msg)
      × Represents line n t ((try_pop t q).2) (suc k) ms
try_pop-Represents line n t q k msg ms s r far =
    let e =
      try_pop-frame t q (offset line n k + 8) s.some_bytes
        (acquire_read-frame line n t q k msg ms s r) in
    (
      ap (λ (p : SpscError × Option (List ℕ) × Queue). p.0) e,
      ap (λ (p : SpscError × Option (List ℕ) × Queue). p.1) e ∙ ap some r.framed.1,
      rw e (popped-Represents line n t q k msg ms s r far),
    )

pub try_pop_empty :
    (line n t : ℕ) (q : Queue) (k : ℕ) → Represents line n t q k [] → try_pop t q ≡ (empty, none, q)
unfolding try_pop acquire_read
try_pop_empty line n t q k r =
    let same : q.write_index ≡ q.read_index =
      r.next ∙ ap (λ (j : ℕ). line * j) (omega arith) ∙ sym r.oldest in
    rw (le→leb q.write_index q.read_index (omega arith))
