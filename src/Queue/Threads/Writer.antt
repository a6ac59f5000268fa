-- ===== src/Queue/Threads/Writer.antt =====
-- The steps of the writer.
use libcsics.Base.{
  ℕ, suc, ◌+◌, ◌*◌, ◌^◌, ◌≤◌, ◌<◌, ◌≡◌, refl, ap, subst, ◌∙◌, inl, inr, ltb, List, [], ◌∷◌, ◌++◌,
  length, length-append, arith, Bool-cases, ltb→lt, some, not-ltb→le, append_assoc, ne→not-==,
}
use libcsics.Queue.Memory.{load, store, load-store_apart, load-store_exact}
use libcsics.Queue.Spsc.{
  Queue, Slot, SpscError, ok, full, empty, too_big, header_bytes, acquire_write, open_slot,
  commit_write, next_index,
}
use libcsics.Queue.Message.{fill}
use libcsics.Queue.Message.Frames.{offset}
use libcsics.Queue.Message.Fifo.Window.{IsShape, Represents, Framed-append}
use libcsics.Queue.Message.Fifo.Push.{length-header_bytes, next_index-frame}
use libcsics.Queue.Threads.{
  WriterAt, ReaderAt, outside, loaded, opened, filled, taken, System, writer_step, seen_by_writer,
  after_acquire_write,
}
use libcsics.Queue.Threads.Grants.{
  with_buffer, acquire_write-granted, acquire_write-refused, stored,
}
use libcsics.Queue.Threads.Invariant.{slot_of, Writing, Reading, IsSafe, IsSafe-end}

-- A step of the writer that pushes nothing.
quiet :
    (line n t : ℕ) (s s' : System) (ms : List (List ℕ))
    → IsSafe line n t s ms
    → s'.popped ≡ s.popped
    → s'.pushed ≡ s.pushed
    → s'.reader ≡ s.reader
    → Represents line n t s'.queue (length s.popped) ms
    → Writing line n t s'.queue.buffer (length s.popped) (length s.pushed) s'.writer
    → IsSafe line n t s' ms
quiet line n t s s' ms h same_popped same_pushed same_reader holds writing = record {
  holds = rw same_popped holds;
  split = rw (same_popped, same_pushed) h.split;
  writing = rw (same_popped, same_pushed) writing;
  reading = rw (same_popped, same_pushed, same_reader) h.reading;
}

-- The steps of the writer after the load.
acquired :
    (line n t : ℕ) (s : System) (ms : List (List ℕ)) (value : List ℕ) (j : ℕ)
    → IsShape line n t
    → IsSafe line n t s ms
    → s.queue.write_index < 2 ^ 62
    → length value ≡ t
    → j ≤ length s.popped
    → IsSafe line n t
        (after_acquire_write s value (acquire_write (seen_by_writer s.queue (line * j)) t))
        ms
unfolding open_slot
acquired line n t s ms value j shape h far len past =
    let k = length s.popped in
    let e = k + length ms in
    let end = IsSafe-end line n t s ms h in
    let header_length = length-header_bytes 0 t in
    elim (Bool-cases (ltb e (j + n))) [
      | inr none_left ↦
          rw
            (acquire_write-refused line n t s.queue k j ms shape h.holds far past
              (not-ltb→le e (j + n) none_left))
            (quiet line n t s (record s { writer = outside }) ms h refl refl refl h.holds tt)
      | inl room ↦
          let lt = ltb→lt e (j + n) room in
          let m = store s.queue.buffer (offset line n e) (header_bytes 0 t) in
          rw (acquire_write-granted line n t s.queue k j ms shape h.holds far past lt) (
            quiet line n t s
              (record s {
                queue = with_buffer s.queue m;
                writer = opened value (slot_of line n t e);
              })
              ms h refl refl refl
              (stored line n t s.queue k e (offset line n e) ms (header_bytes 0 t) shape h.holds
                refl (omega arith) (omega arith) (omega (arith, shape)))
              (rw end (
                len,
                refl,
                omega arith,
                load-store_exact s.queue.buffer (offset line n e) 8 (header_bytes 0 t)
                    header_length,
              )))
    ]

constructed :
    (line n t : ℕ) (s : System) (ms : List (List ℕ)) (value : List ℕ)
    → IsShape line n t
    → IsSafe line n t s ms
    → length value ≡ t
    → length s.pushed < length s.popped + n
    → load s.queue.buffer (offset line n (length s.pushed)) 8 ≡ header_bytes 0 t
    → let slot = slot_of line n t (length s.pushed) in
      IsSafe line n t (record s { queue = fill s.queue slot value; writer = filled value slot }) ms
constructed line n t s ms value shape h len room header =
    let i = offset line n (length s.pushed) in
    let end = IsSafe-end line n t s ms h in
    quiet line n t s
      (record s {
        queue = with_buffer s.queue (store s.queue.buffer (i + 8) value);
        writer = filled value (slot_of line n t (length s.pushed));
      })
      ms h refl refl refl
      (stored line n t s.queue (length s.popped) (length s.pushed) (i + 8) ms value shape h.holds
        end room (omega arith) (omega (arith, shape)))
      (
        len,
        refl,
        room,
        load-store_apart s.queue.buffer (i + 8) i 8 value (inr (omega arith)) ∙ header,
        load-store_exact s.queue.buffer (i + 8) t value len,
      )

-- The frame that is committed joins the window.
committed-Represents :
    (line n t : ℕ) (q : Queue) (k e : ℕ) (ms : List (List ℕ)) (value : List ℕ)
    → IsShape line n t
    → Represents line n t q k ms
    → e ≡ k + length ms
    → e < k + n
    → q.write_index < 2 ^ 62
    → load q.buffer (offset line n e) 8 ≡ header_bytes 0 t
    → load q.buffer (offset line n e + 8) t ≡ value
    → Represents line n t
        (record q { write_index = next_index q q.write_index t })
        k
        (ms ++ (value ∷ []))
committed-Represents line n t q k e ms value shape r at room far header bytes = record {
  line_size = r.line_size;
  lines = r.lines;
  oldest = r.oldest;
  next =
      next_index-frame line n t q q.write_index (k + length ms) shape r.line_size r.next far
      ∙ ap (λ (j : ℕ). line * j) (omega (arith, length-append ms (value ∷ [])));
  few = omega (arith, length-append ms (value ∷ []));
  framed = Framed-append line n t q.buffer k e ms value at r.framed (header, bytes, tt);
}

-- What the reader knows stays true when a message is pushed.
Reading-pushed :
    (line n t k e : ℕ) (ms : List (List ℕ)) (value : List ℕ) (at : ReaderAt)
    → Reading line n t k e ms at
    → Reading line n t k (suc e) (ms ++ (value ∷ [])) at
Reading-pushed line n t k e ms value outside known = tt
Reading-pushed line n t k e ms value (loaded index) (j, same, le) = (j, same, omega arith)
Reading-pushed line n t k e ms value (opened slot) (same, lt) = (same, omega arith)
Reading-pushed line n t k e ms value (taken slot o) (same, msg, rest, all, some_msg) =
    (same, msg, rest ++ (value ∷ []), ap (λ ns. ns ++ (value ∷ [])) all, some_msg)

commits :
    (t : ℕ) (q : Queue) (slot : Slot) (i : ℕ)
    → 0 < t
    → slot ≡ record { at = some i; size = t }
    → commit_write q slot ≡ record q { write_index = next_index q q.write_index t }
unfolding commit_write
commits t q slot i pos same = rw (same, ne→not-== t 0 (omega arith)) refl

pub after_acquire_write-pushed :
    (s : System) (value : List ℕ) (o : SpscError × Slot × Queue)
    → (after_acquire_write s value o).pushed ≡ s.pushed
after_acquire_write-pushed s value (ok, slot, q) = refl
after_acquire_write-pushed s value (full, slot, q) = refl
after_acquire_write-pushed s value (empty, slot, q) = refl
after_acquire_write-pushed s value (too_big, slot, q) = refl

pub writer_step-IsSafe :
    (line n t : ℕ) (s : System) (ms : List (List ℕ)) (value : List ℕ) (at : WriterAt)
    → IsShape line n t
    → IsSafe line n t s ms
    → s.queue.write_index < 2 ^ 62
    → length value ≡ t
    → Writing line n t s.queue.buffer (length s.popped) (length s.pushed) at
    → (ns : List (List ℕ)) × IsSafe line n t (writer_step t value at s) ns
      × (length (writer_step t value at s).pushed ≤ length s.pushed + 1)
unfolding writer_step
writer_step-IsSafe line n t s ms value outside shape h far len known = (
  ms,
  quiet line n t s (record s { writer = loaded value s.queue.read_index }) ms h refl refl refl
      h.holds (len, length s.popped, h.holds.oldest, omega arith),
  omega arith,
)
writer_step-IsSafe line n t s ms value (loaded given index) shape h far len (sized, j, same, past) =
    rw same (
      ms,
      acquired line n t s ms given j shape h far sized past,
      omega (
        arith,
        ap length (
            after_acquire_write-pushed s given
              (acquire_write (seen_by_writer s.queue (line * j)) t)),
      ),
    )
writer_step-IsSafe line n t s ms value (opened given slot) shape h far len
      (sized, same, room, header) =
    rw same (ms, constructed line n t s ms given shape h sized room header, omega arith)
writer_step-IsSafe line n t s ms value (filled given slot) shape h far len
      (sized, same, room, header, bytes) =
    let e = length s.pushed in
    let more = length-append s.pushed (given ∷ []) in
    (
      ms ++ (given ∷ []),
      record {
        holds = rw (commits t s.queue slot (offset line n e + 8) shape.some_bytes same) (
            committed-Represents line n t s.queue (length s.popped) e ms given shape h.holds
              (IsSafe-end line n t s ms h) room far header bytes);
        split = ap (λ ns. ns ++ (given ∷ [])) h.split ∙ append_assoc s.popped ms (given ∷ []);
        writing = tt;
        reading =
            subst (λ (i : ℕ). Reading line n t (length s.popped) i (ms ++ (given ∷ [])) s.reader)
              (omega arith)
              (Reading-pushed line n t (length s.popped) e ms given s.reader h.reading);
      },
      omega arith,
    )
