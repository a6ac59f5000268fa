-- ===== src/Queue/Spsc/Bounds.antt =====
-- Where the slots of the queue lie.
use libcsics.Base.{
  ℕ, ◌+◌, ◌-◌, ◌%◌, ◌^◌, ◌≤◌, ◌<◌, ◌≡◌, inl, inr, some, arith, ltb, Bool-cases, le→not-ltb, lt→ltb,
  ltb→lt, not-ltb→le, lt→not-leb, le→leb, ◌⊎◌,
}
use libcsics.Queue.Spsc.{
  Queue, ok, full, too_big, no_slot, acquire_write, open_slot, skip_to_start, mod_index, add_size,
  sub_size,
}
use native.Mathlib.Nat.{mod-lt}

-- Indices and sizes far from where `size_t` wraps.
pub record IsSane (q : Queue) : Type 0 where
  pub ordered : q.read_index ≤ q.write_index
  pub indices : q.write_index < 2 ^ 63
  pub capacity : q.capacity < 2 ^ 62
  pub some_room : 0 < q.capacity

abbrev used : Queue → ℕ
used q = q.write_index - q.read_index

-- A message that fits behind the write index is put there.
pub acquire_write_here :
    (q : Queue) (size : ℕ)
    → IsSane q
    → used q + (size + 8) < q.capacity
    → q.write_index % q.capacity + (size + 8) ≤ q.capacity
    → acquire_write q size ≡ open_slot q (q.write_index % q.capacity) size
unfolding acquire_write
acquire_write_here q size s fits here = rw (
  le→not-ltb q.capacity size (omega (arith, s)),
  lt→not-leb q.capacity (add_size (sub_size q.write_index q.read_index) (add_size size 8))
      (omega (arith, s)),
  le→not-ltb q.capacity (add_size (mod_index q q.write_index) (add_size size 8)) (omega (arith, s)),
)

-- One that does not goes to the start of the buffer, behind a padding header.
pub acquire_write_start :
    (q : Queue) (size : ℕ)
    → IsSane q
    → used q + (size + 8) < q.capacity
    → q.capacity < q.write_index % q.capacity + (size + 8)
    → acquire_write q size
      ≡ open_slot
          (skip_to_start q (add_size (sub_size q.capacity (q.write_index % q.capacity)) 8))
          0
          size
unfolding acquire_write
acquire_write_start q size s fits over = rw (
  le→not-ltb q.capacity size (omega (arith, s)),
  lt→not-leb q.capacity (add_size (sub_size q.write_index q.read_index) (add_size size 8))
      (omega (arith, s)),
  lt→ltb q.capacity (add_size (mod_index q q.write_index) (add_size size 8))
      (omega (arith, s, mod-lt q.write_index s.some_room)),
)

pub acquire_write_full :
    (q : Queue) (size : ℕ)
    → IsSane q
    → size ≤ q.capacity
    → q.capacity ≤ used q + (size + 8)
    → acquire_write q size ≡ (full, no_slot, q)
unfolding acquire_write
acquire_write_full q size s small more = rw (
  le→not-ltb q.capacity size small,
  le→leb q.capacity (add_size (sub_size q.write_index q.read_index) (add_size size 8))
      (omega (arith, s)),
)

acquire_write_too_big :
    (q : Queue) (size : ℕ) → q.capacity < size → acquire_write q size ≡ (too_big, no_slot, q)
unfolding acquire_write
acquire_write_too_big q size big = rw (lt→ltb q.capacity size big)

-- The slot at offset `i` with the size that was asked for, inside the buffer.
abbrev pub Grants : Queue → ℕ → ℕ → Type 0
Grants q size i =
    ((acquire_write q size).0 ≡ ok)
    × ((acquire_write q size).1 ≡ record { at = some i; size = size })
    × (8 ≤ i)
    × (i + size ≤ q.capacity)

-- A write slot that is granted lies inside the buffer, behind its header, with the size asked for.
-- Otherwise the queue is unchanged, and the call says which of the two refusals holds: the message
-- is larger than the buffer, or with its header it does not fit beside the unread bytes.
pub acquire_write_in_bounds :
    (q : Queue) (size : ℕ)
    → IsSane q
    → ((i : ℕ) × Grants q size i)
      ⊎ ((acquire_write q size ≡ (full, no_slot, q))
          × (q.capacity ≤ q.write_index - q.read_index + (size + 8)))
      ⊎ ((acquire_write q size ≡ (too_big, no_slot, q)) × (q.capacity < size))
unfolding open_slot
acquire_write_in_bounds q size s = elim (Bool-cases (ltb q.capacity size)) [
  | inl big ↦ let lt = ltb→lt q.capacity size big in inr (inr (acquire_write_too_big q size lt, lt))
  | inr small ↦ elim (Bool-cases (ltb (used q + (size + 8)) q.capacity)) [
    | inr more ↦
        let le = not-ltb→le (used q + (size + 8)) q.capacity more in
        inr (inl (acquire_write_full q size s (not-ltb→le q.capacity size small) le, le))
    | inl less ↦
        let lt = ltb→lt (used q + (size + 8)) q.capacity less in
        elim (Bool-cases (ltb q.capacity (q.write_index % q.capacity + (size + 8)))) [
          | inl over ↦
              let e =
                acquire_write_start q size s lt
                  (ltb→lt q.capacity (q.write_index % q.capacity + (size + 8)) over) in
              inl (0 + 8, (rw e, rw e, omega arith, omega arith))
          | inr fits ↦
              let here = not-ltb→le q.capacity (q.write_index % q.capacity + (size + 8)) fits in
              let e = acquire_write_here q size s lt here in
              inl (q.write_index % q.capacity + 8, (rw e, rw e, omega arith, omega arith))
        ]
  ]
]
