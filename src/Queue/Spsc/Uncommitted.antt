-- ===== src/Queue/Spsc/Uncommitted.antt =====
-- The write index moves over the padding before the message behind it is committed.
use libcsics.Base.{
  ℕ, ◌+◌, ◌*◌, ◌%◌, ◌^◌, ◌≤◌, ◌<◌, ◌≡◌, refl, ap, ◌∙◌, inl, length, arith, some, lt→not-leb,
}
use libcsics.Wire.{of_bytes}
use libcsics.Wire.Bytes.{of_bytes-le_bytes, length-le_bytes}
use libcsics.Queue.Memory.{Memory, load, store, load-store_apart, load-store_exact}
use libcsics.Queue.Spsc.{
  Queue, ok, header_bytes, header_padded, header_slot_size, acquire_write, acquire_read, read_slot,
  open_slot, skip_to_start, add_size, sub_size,
}
use libcsics.Queue.Spsc.Bounds.{IsSane, acquire_write_start}

length-header : (padded size : ℕ) → length (header_bytes padded size) ≡ 8
unfolding header_bytes
length-header padded size = length-le_bytes 8 (padded + 2 * size)

-- The header that was stored at an offset, when what was stored later lies elsewhere.
header_read :
    (m : Memory) (i padded size : ℕ)
    → padded < 2
    → size < 2 ^ 62
    → load m i 8 ≡ header_bytes padded size
    → (header_padded m i ≡ padded) × (header_slot_size m i ≡ size)
unfolding header_bytes header_padded header_slot_size
header_read m i padded size bit small at =
    let v : of_bytes (load m i 8) ≡ padded + 2 * size =
      ap of_bytes at ∙ of_bytes-le_bytes 8 (padded + 2 * size) (omega arith) in
    (omega (arith, v), omega (arith, v))

-- Behind a padding header the slot at the start of the buffer is given.
acquire_read-padded :
    (q : Queue) (i size : ℕ)
    → q.read_index < q.write_index
    → q.read_index % q.capacity ≡ i
    → header_padded q.buffer i ≡ 1
    → header_slot_size q.buffer 0 ≡ size
    → ((acquire_read q).0 ≡ ok) × ((acquire_read q).1 ≡ record { at = some 8; size = size })
unfolding acquire_read read_slot
acquire_read-padded q i size more at padded sized =
    rw (lt→not-leb q.write_index q.read_index more, at, padded, sized) (refl, refl)

-- In a queue with no unread message, a message that has to go to the start of the buffer is granted a
-- slot, and before it is committed a reader that asks for a message is given this same slot.
pub acquire_read-acquire_write :
    (q : Queue) (size : ℕ)
    → IsSane q
    → q.read_index ≡ q.write_index
    → size + 8 < q.capacity
    → q.capacity < q.write_index % q.capacity + (size + 8)
    → 8 ≤ q.write_index % q.capacity
    → ((acquire_write q size).0 ≡ ok)
      × ((acquire_read (acquire_write q size).2).0 ≡ ok)
      × ((acquire_read (acquire_write q size).2).1 ≡ (acquire_write q size).1)
unfolding open_slot skip_to_start
acquire_read-acquire_write q size s caught_up fits over behind =
    let i = q.write_index % q.capacity in
    let pad = add_size (sub_size q.capacity i) 8 in
    let e = acquire_write_start q size s (omega arith) over in
    let m = store q.buffer i (header_bytes 1 pad) in
    let m' = store m 0 (header_bytes 0 size) in
    let padded : header_padded m' i ≡ 1 =
      (header_read m' i 1 pad (omega arith) (omega (arith, s)) (
        load-store_apart m 0 i 8 (header_bytes 0 size) (inl (omega (arith, length-header 0 size)))
        ∙ load-store_exact q.buffer i 8 (header_bytes 1 pad) (length-header 1 pad))).0 in
    let sized : header_slot_size m' 0 ≡ size =
      (header_read m' 0 0 size (omega arith) (omega (arith, s))
        (load-store_exact m 0 8 (header_bytes 0 size) (length-header 0 size))).1 in
    let moved : q.read_index < add_size q.write_index (add_size pad 8) = omega (arith, s) in
    let at : q.read_index % q.capacity ≡ i = ap (λ (j : ℕ). j % q.capacity) caught_up in
    let (read, slot) =
      acquire_read-padded (open_slot (skip_to_start q pad) 0 size).2 i size moved at padded sized in
    rw e (refl, read, slot)
