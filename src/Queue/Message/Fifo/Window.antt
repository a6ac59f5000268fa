-- ===== src/Queue/Message/Fifo/Window.antt =====
-- The unread messages of a queue whose messages take one cache line each.
use libcsics.Base.{
  ℕ, suc, ◌+◌, ◌*◌, ◌%◌, ◌^◌, ◌≤◌, ◌<◌, ◌≡◌, ◌∙◌, subst, List, [], ◌∷◌, ◌++◌, length, arith, ◌⊎◌,
  inl, inr,
}
use libcsics.Queue.Memory.{Memory, load, store, load-store_apart}
use libcsics.Queue.Spsc.{Queue, header_bytes}
use libcsics.Queue.Message.Frames.{offset, frames_differ, frames_apart}

-- Messages of `t` bytes that with their header are smaller than a line, and `n` lines.
pub record IsShape (line n t : ℕ) : Type 0 where
  pub some_bytes : 0 < t
  pub small : t + 8 < line
  pub some_lines : 0 < n
  pub bounded : line * n < 2 ^ 62

-- Frames k, k + 1, ... hold the messages behind headers of their size.
abbrev pub Framed : (line n t : ℕ) → Memory → ℕ → List (List ℕ) → Type 0
Framed line n t m k [] = Unit
Framed line n t m k (msg ∷ ms) =
    (load m (offset line n k) 8 ≡ header_bytes 0 t)
    × (load m (offset line n k + 8) t ≡ msg)
    × Framed line n t m (suc k) ms

-- The queue holds the messages, of which frame `k` has the oldest.
pub record Represents (line n t : ℕ) (q : Queue) (k : ℕ) (ms : List (List ℕ)) : Type 0 where
  pub line_size : q.line ≡ line
  pub lines : q.capacity ≡ line * n
  pub oldest : q.read_index ≡ line * k
  pub next : q.write_index ≡ line * (k + length ms)
  pub few : length ms ≤ n
  pub framed : Framed line n t q.buffer k ms

-- What is stored in the frame of another message leaves a frame as it is.
frame_apart :
    (line n k e i : ℕ)
    → 0 < n
    → k < e
    → e < k + n
    → offset line n e ≤ i
    → (b : ℕ) → i + b ≤ offset line n e + line
    → (i + b ≤ offset line n k) ⊎ (offset line n k + line ≤ i)
frame_apart line n k e i hn lt near above b below =
    elim (frames_apart line (k % n) (e % n) (frames_differ n k e hn lt near)) [
      | inl h ↦ inr (omega arith)
      | inr h ↦ inl (omega arith)
    ]

pub Framed-store :
    (line n t : ℕ) (m : Memory) (k : ℕ) (ms : List (List ℕ)) (e i : ℕ) (bs : List ℕ)
    → IsShape line n t
    → k + length ms ≤ e
    → e < k + n
    → offset line n e ≤ i
    → i + length bs ≤ offset line n e + line
    → Framed line n t m k ms
    → Framed line n t (store m i bs) k ms
Framed-store line n t m k [] e i bs s later near above below f = tt
Framed-store line n t m k (msg ∷ ms) e i bs s later near above below (h, d, f) =
    let apart = frame_apart line n k e i s.some_lines (omega arith) near above (length bs) below in
    (
      load-store_apart m i (offset line n k) 8 bs
            (within (offset line n k) 8 apart (omega arith) (omega (arith, s)))
          ∙ h,
      load-store_apart m i (offset line n k + 8) t bs
            (within (offset line n k + 8) t apart (omega arith) (omega (arith, s)))
          ∙ d,
      Framed-store line n t m (suc k) ms e i bs s (omega arith) (omega arith) above below f,
    )
  where
    within :
        (a w : ℕ)
        → (i + length bs ≤ offset line n k) ⊎ (offset line n k + line ≤ i)
        → offset line n k ≤ a
        → a + w ≤ offset line n k + line
        → (i + length bs ≤ a) ⊎ (a + w ≤ i)
    within a w (inl before) l h = inl (omega arith)
    within a w (inr after) l h = inr (omega arith)

pub Framed-append :
    (line n t : ℕ) (m : Memory) (k e : ℕ) (ms : List (List ℕ)) (msg : List ℕ)
    → e ≡ k + length ms
    → Framed line n t m k ms
    → Framed line n t m e (msg ∷ [])
    → Framed line n t m k (ms ++ (msg ∷ []))
Framed-append line n t m k e [] msg at f g =
    subst (λ j. Framed line n t m j (msg ∷ [])) (omega arith) g
Framed-append line n t m k e (x ∷ ms) msg at (h, d, f) g =
    (h, d, Framed-append line n t m (suc k) e ms msg (omega arith) f g)
