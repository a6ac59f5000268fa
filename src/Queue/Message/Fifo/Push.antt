-- ===== src/Queue/Message/Fifo/Push.antt =====
-- `try_push` of a message on a queue that holds the messages of a window.
use libcsics.Base.{
  ℕ, ◌+◌, ◌-◌, ◌*◌, ◌%◌, ◌^◌, ◌<◌, ◌≡◌, ◌∙◌, ap, ap₂, List, [], ◌∷◌, ◌++◌, length, arith, inr,
  ne→not-==, length-append,
}
use libcsics.Wire.Bytes.{length-le_bytes}
use libcsics.Queue.Memory.{Memory, store, load-store_apart, load-store_exact}
use libcsics.Queue.Spsc.{
  Queue, SpscError, ok, full, header_bytes, acquire_write, open_slot, commit_write, next_index,
}
use libcsics.Queue.Spsc.Bounds.{IsSane, acquire_write_here, acquire_write_full}
use libcsics.Queue.Message.{try_push}
use libcsics.Queue.Message.Frames.{offset, frame_end, mod-frame, round_up, span}
use libcsics.Queue.Message.Fifo.Window.{IsShape, Framed, Represents, Framed-store, Framed-append}
use native.Mathlib.Nat.{mod-lt}

pub length-header_bytes : (padded size : ℕ) → length (header_bytes padded size) ≡ 8
unfolding header_bytes
length-header_bytes padded size = length-le_bytes 8 (padded + 2 * size)

pub Represents-IsSane :
    (line n t : ℕ) (q : Queue) (k : ℕ) (ms : List (List ℕ))
    → IsShape line n t
    → Represents line n t q k ms
    → q.write_index < 2 ^ 62
    → IsSane q
Represents-IsSane line n t q k ms s r far = record {
  ordered = omega (arith, r, span line k (length ms));
  indices = omega arith;
  capacity = omega (arith, r, s);
  some_room = omega (arith, r, s, frame_end line n 0 s.some_lines);
}

-- The queue after a message of `t` bytes is constructed at offset `i` and committed.
abbrev pushed : Queue → ℕ → ℕ → List ℕ → Queue
pushed q t i value = record q {
  buffer = store (store q.buffer i (header_bytes 0 t)) (i + 8) value;
  write_index = next_index q q.write_index t;
}

pub acquire_write-frame :
    (line n t : ℕ) (q : Queue) (k : ℕ) (ms : List (List ℕ))
    → IsShape line n t
    → Represents line n t q k ms
    → q.write_index < 2 ^ 62
    → length ms < n
    → acquire_write q t ≡ open_slot q (offset line n (k + length ms)) t
acquire_write-frame line n t q k ms s r far room =
    acquire_write_here q t (Represents-IsSane line n t q k ms s r far)
      (omega (arith, r, s, span line k (length ms), frame_end line n (length ms) room))
      (omega (arith, at, r, s, frame_end line n (e % n) (mod-lt e s.some_lines)))
    ∙ ap (λ (i : ℕ). open_slot q i t) at
  where
    e : ℕ
    e = k + length ms

    at : q.write_index % q.capacity ≡ offset line n e
    at = ap₂ ◌%◌ r.next r.lines ∙ mod-frame line n e (omega (arith, s)) s.some_lines

pub try_push-open :
    (t : ℕ) (q : Queue) (i : ℕ) (value : List ℕ)
    → 0 < t
    → acquire_write q t ≡ open_slot q i t
    → try_push t q value ≡ (ok, pushed q t i value)
unfolding try_push open_slot commit_write store next_index
try_push-open t q i value pos e = rw (e, ne→not-== t 0 (omega arith))

next_index-far :
    (q : Queue) (index size : ℕ)
    → index + size + 8 + (q.line - 1) < 2 ^ 64
    → next_index q index size
      ≡ index + size + 8 + (q.line - 1) - (index + size + 8 + (q.line - 1)) % q.line
unfolding next_index
next_index-far q index size far = ap (λ (x : ℕ). x - x % q.line) (omega arith)

pub next_index-frame :
    (line n t : ℕ) (q : Queue) (index e : ℕ)
    → IsShape line n t
    → q.line ≡ line
    → index ≡ line * e
    → index < 2 ^ 62
    → next_index q index t ≡ line * (e + 1)
next_index-frame line n t q index e s l at far =
    next_index-far q index t (omega (arith, l, s, frame_end line n 0 s.some_lines))
    ∙ ap₂ (λ (i w : ℕ). i + t + 8 + (w - 1) - (i + t + 8 + (w - 1)) % w) at l
    ∙ round_up line e t (omega (arith, s)) s.some_bytes

-- The frame that was pushed.
pushed-Framed :
    (line n t : ℕ) (m : Memory) (e : ℕ) (value : List ℕ)
    → length value ≡ t
    → Framed line n t
        (store (store m (offset line n e) (header_bytes 0 t)) (offset line n e + 8) value)
        e
        (value ∷ [])
pushed-Framed line n t m e value len =
    let i = offset line n e in
    let m' = store m i (header_bytes 0 t) in
    (
      load-store_apart m' (i + 8) i 8 value (inr (omega arith))
          ∙ load-store_exact m i 8 (header_bytes 0 t) (length-header_bytes 0 t),
      load-store_exact m' (i + 8) t value len,
      tt,
    )

-- The window with the frame that was pushed.
window_pushed :
    (line n t : ℕ) (q : Queue) (k : ℕ) (ms : List (List ℕ)) (value : List ℕ)
    → IsShape line n t
    → Represents line n t q k ms
    → length ms < n
    → length value ≡ t
    → Framed line n t
        (store
          (store q.buffer (offset line n (k + length ms)) (header_bytes 0 t))
          (offset line n (k + length ms) + 8)
          value)
        k
        (ms ++ (value ∷ []))
window_pushed line n t q k ms value s r room len =
    let e = k + length ms in
    let i = offset line n e in
    let hl = length-header_bytes 0 t in
    let m' = store q.buffer i (header_bytes 0 t) in
    let kept =
      Framed-store line n t q.buffer k ms e i (header_bytes 0 t) s (omega arith) (omega arith)
        (omega arith) (omega (arith, s)) r.framed in
    Framed-append line n t (store m' (i + 8) value) k e ms value (omega arith)
      (Framed-store line n t m' k ms e (i + 8) value s (omega arith) (omega arith) (omega arith)
        (omega (arith, s)) kept)
      (pushed-Framed line n t q.buffer e value len)

pub try_push-Represents :
    (line n t : ℕ) (q : Queue) (k : ℕ) (ms : List (List ℕ)) (value : List ℕ)
    → IsShape line n t
    → Represents line n t q k ms
    → q.write_index < 2 ^ 62
    → length ms < n
    → length value ≡ t
    → ((try_push t q value).0 ≡ ok)
      × Represents line n t ((try_push t q value).1) k (ms ++ (value ∷ []))
try_push-Represents line n t q k ms value s r far room len =
    let i = offset line n (k + length ms) in
    let e =
      try_push-open t q i value s.some_bytes (acquire_write-frame line n t q k ms s r far room) in
    (ap (λ (p : SpscError × Queue). p.0) e, rw e after)
  where
    after :
        Represents line n t
          (pushed q t (offset line n (k + length ms)) value)
          k
          (ms ++ (value ∷ []))
    after = record {
      line_size = r.line_size;
      lines = r.lines;
      oldest = r.oldest;
      next =
          next_index-frame line n t q q.write_index (k + length ms) s r.line_size r.next far
          ∙ ap (λ (j : ℕ). line * j) (omega (arith, length-append ms (value ∷ [])));
      few = omega (arith, length-append ms (value ∷ []));
      framed = window_pushed line n t q k ms value s r room len;
    }

pub try_push_full :
    (line n t : ℕ) (q : Queue) (k : ℕ) (ms : List (List ℕ)) (value : List ℕ)
    → IsShape line n t
    → Represents line n t q k ms
    → q.write_index < 2 ^ 62
    → length ms ≡ n
    → try_push t q value ≡ (full, q)
unfolding try_push
try_push_full line n t q k ms value s r far none_left =
    let one = frame_end line n 0 s.some_lines in
    let all = span line k (length ms) in
    let same : line * length ms ≡ line * n = ap (λ (j : ℕ). line * j) none_left in
    rw (
      acquire_write_full q t (Represents-IsSane line n t q k ms s r far) (omega (arith, r, s))
        (omega (arith, r, s)))
