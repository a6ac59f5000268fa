-- ===== src/Queue/Threads/Reader.antt =====
-- The steps of the reader.
use libcsics.Base.{
  ℕ, suc, ◌+◌, ◌*◌, ◌%◌, ◌^◌, ◌≤◌, ◌<◌, ◌≡◌, refl, sym, ap, ap₂, subst, ◌∙◌, inl, inr, ltb, List,
  [], ◌∷◌, ◌++◌, some, length, length-append, arith, Bool-cases, ltb→lt, not-ltb→le, append_assoc,
  ne→not-==, le→leb,
}
use libcsics.Queue.Memory.{Memory, load}
use libcsics.Queue.Spsc.{
  Queue, Slot, SpscError, ok, full, empty, too_big, no_slot, acquire_read, commit_read, next_index,
}
use libcsics.Queue.Message.{value_at}
use libcsics.Queue.Message.Frames.{offset, frame_end, mod-frame, times_le, grow}
use libcsics.Queue.Message.Fifo.Window.{IsShape, Represents}
use libcsics.Queue.Message.Fifo.Pop.{header_value, acquire_read-at, popped-Represents}
use libcsics.Queue.Threads.{
  WriterAt, ReaderAt, outside, loaded, opened, filled, taken, System, reader_step, seen_by_reader,
  after_acquire_read,
}
use libcsics.Queue.Threads.Invariant.{slot_of, Writing, Reading, IsSafe, IsSafe-end}

acquire_read-caught_up :
    (line n t : ℕ) (q : Queue) (k j : ℕ) (ms : List (List ℕ))
    → Represents line n t q k ms
    → j ≤ k
    → acquire_read (seen_by_reader q (line * j)) ≡ (empty, no_slot, seen_by_reader q (line * j))
unfolding acquire_read
acquire_read-caught_up line n t q k j ms r past =
    rw (le→leb (line * j) q.read_index (omega (arith, r, times_le line j k past))) refl

-- The header of the oldest frame.
pub acquire_read-granted :
    (line n t : ℕ) (q : Queue) (k j : ℕ) (msg : List ℕ) (ms : List (List ℕ))
    → IsShape line n t
    → Represents line n t q k (msg ∷ ms)
    → k < j
    → acquire_read (seen_by_reader q (line * j))
      ≡ (ok, slot_of line n t k, seen_by_reader q (line * j))
acquire_read-granted line n t q k j msg ms s r more =
    let le = times_le line (k + 1) j (omega arith) in
    acquire_read-at (seen_by_reader q (line * j)) (offset line n k) t
      (omega (arith, r, le, grow line k 0 (omega (arith, s))))
      (ap₂ ◌%◌ r.oldest r.lines ∙ mod-frame line n k (omega (arith, s)) s.some_lines)
      (header_value t (load q.buffer (offset line n k) 8)
        (omega (arith, s, frame_end line n 0 s.some_lines)) r.framed.0)

-- A step of the reader that pops nothing.
quiet :
    (line n t : ℕ) (s : System) (ms : List (List ℕ)) (at : ReaderAt)
    → IsSafe line n t s ms
    → Reading line n t (length s.popped) (length s.pushed) ms at
    → IsSafe line n t (record s { reader = at }) ms
quiet line n t s ms at h reading = record {
  holds = h.holds;
  split = h.split;
  writing = h.writing;
  reading = reading;
}

acquired :
    (line n t : ℕ) (s : System) (ms : List (List ℕ)) (j : ℕ)
    → IsShape line n t
    → IsSafe line n t s ms
    → j ≤ length s.pushed
    → Represents line n t s.queue (length s.popped) ms
    → length s.pushed ≡ length s.popped + length ms
    → IsSafe line n t (after_acquire_read s (acquire_read (seen_by_reader s.queue (line * j)))) ms
acquired line n t s [] j shape h before holds end =
    rw (acquire_read-caught_up line n t s.queue (length s.popped) j [] holds (omega arith))
      (quiet line n t s [] outside h tt)
acquired line n t s (msg ∷ ms) j shape h before holds end =
    elim (Bool-cases (ltb (length s.popped) j)) [
      | inr none_seen ↦
          rw
            (acquire_read-caught_up line n t s.queue (length s.popped) j (msg ∷ ms) holds
              (not-ltb→le (length s.popped) j none_seen))
            (quiet line n t s (msg ∷ ms) outside h tt)
      | inl seen ↦
          rw
            (acquire_read-granted line n t s.queue (length s.popped) j msg ms shape holds
              (ltb→lt (length s.popped) j seen))
            (quiet line n t s (msg ∷ ms) (opened (slot_of line n t (length s.popped))) h
              (refl, omega arith))
    ]

-- The value in the slot is the oldest message.
moved_out :
    (line n t : ℕ) (s : System) (ms : List (List ℕ))
    → IsSafe line n t s ms
    → length s.popped < length s.pushed
    → length s.pushed ≡ length s.popped + length ms
    → Represents line n t s.queue (length s.popped) ms
    → let slot = slot_of line n t (length s.popped) in
      IsSafe line n t (record s { reader = taken slot (value_at t s.queue slot) }) ms
moved_out line n t s [] h more end holds = absurd (omega arith)
moved_out line n t s (msg ∷ ms) h more end holds =
    let slot = slot_of line n t (length s.popped) in
    quiet line n t s (msg ∷ ms) (taken slot (value_at t s.queue slot)) h
      (refl, msg, ms, refl, ap some holds.framed.1)

-- What the writer knows stays true when a message is popped.
Writing-popped :
    (line n t : ℕ) (m : Memory) (k e : ℕ) (at : WriterAt)
    → Writing line n t m k e at
    → Writing line n t m (suc k) e at
Writing-popped line n t m k e outside known = tt
Writing-popped line n t m k e (loaded value index) (sized, j, same, le) =
    (sized, j, same, omega arith)
Writing-popped line n t m k e (opened value slot) (sized, same, room, header) =
    (sized, same, omega arith, header)
Writing-popped line n t m k e (filled value slot) (sized, same, room, header, bytes) =
    (sized, same, omega arith, header, bytes)

commits :
    (t : ℕ) (q : Queue) (slot : Slot) (i : ℕ)
    → 0 < t
    → slot ≡ record { at = some i; size = t }
    → commit_read q slot ≡ record q { read_index = next_index q q.read_index t }
unfolding commit_read
commits t q slot i pos same = rw (same, ne→not-== t 0 (omega arith)) refl

-- The step that ends `try_pop`.
popped_one :
    (line n t : ℕ) (s : System) (msg : List ℕ) (rest : List (List ℕ)) (slot : Slot)
    → IsShape line n t
    → IsSafe line n t s (msg ∷ rest)
    → s.queue.write_index < 2 ^ 62
    → slot ≡ slot_of line n t (length s.popped)
    → IsSafe line n t
        (record s {
          queue = commit_read s.queue slot;
          reader = outside;
          popped = s.popped ++ (msg ∷ []);
        })
        rest
popped_one line n t s msg rest slot shape h far same =
    let k = length s.popped in
    let one_more : length (s.popped ++ (msg ∷ [])) ≡ suc k =
      length-append s.popped (msg ∷ []) ∙ omega arith in
    rw (commits t s.queue slot (offset line n k + 8) shape.some_bytes same) (record {
      holds = rw one_more (popped-Represents line n t s.queue k msg rest shape h.holds far);
      split = h.split ∙ sym (append_assoc s.popped (msg ∷ []) rest);
      writing =
          rw one_more
            (Writing-popped line n t s.queue.buffer k (length s.pushed) s.writer h.writing);
      reading = tt;
    })

pub after_acquire_read-pushed :
    (s : System) (o : SpscError × Slot × Queue) → (after_acquire_read s o).pushed ≡ s.pushed
after_acquire_read-pushed s (ok, slot, q) = refl
after_acquire_read-pushed s (full, slot, q) = refl
after_acquire_read-pushed s (empty, slot, q) = refl
after_acquire_read-pushed s (too_big, slot, q) = refl

pub reader_step-IsSafe :
    (line n t : ℕ) (s : System) (ms : List (List ℕ)) (at : ReaderAt)
    → IsShape line n t
    → IsSafe line n t s ms
    → s.queue.write_index < 2 ^ 62
    → Reading line n t (length s.popped) (length s.pushed) ms at
    → (ns : List (List ℕ)) × IsSafe line n t (reader_step t at s) ns
      × (length (reader_step t at s).pushed ≤ length s.pushed)
unfolding reader_step
reader_step-IsSafe line n t s ms outside shape h far known =
    let end = IsSafe-end line n t s ms h in
    (
      ms,
      quiet line n t s ms (loaded s.queue.write_index) h
          (length s.pushed, h.holds.next ∙ ap (λ (e : ℕ). line * e) (sym end), omega arith),
      omega arith,
    )
reader_step-IsSafe line n t s ms (loaded index) shape h far (j, same, before) = rw same (
  ms,
  acquired line n t s ms j shape h before h.holds (IsSafe-end line n t s ms h),
  omega (
    arith,
    ap length (after_acquire_read-pushed s (acquire_read (seen_by_reader s.queue (line * j)))),
  ),
)
reader_step-IsSafe line n t s ms (opened slot) shape h far (same, more) =
    rw same (ms, moved_out line n t s ms h more (IsSafe-end line n t s ms h) h.holds, omega arith)
reader_step-IsSafe line n t s ms (taken slot value) shape h far (same, msg, rest, all, some_msg) =
    rw some_msg (
      rest,
      popped_one line n t s msg rest slot shape (subst (IsSafe line n t s) all h) far same,
      omega arith,
    )
