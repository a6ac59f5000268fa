-- ===== src/Queue/Message/Fifo/Runs.antt =====
-- Any sequence of `try_push` and `try_pop`, against a bounded queue of `n` messages.
use libcsics.Base.{
  ℕ, suc, ◌+◌, ◌*◌, ◌^◌, ◌≤◌, ◌<◌, ◌≡◌, refl, ap, ap₂, List, [], ◌∷◌, ◌++◌, length, arith, some,
  none, Option, inl, inr, ltb, if◌then◌else◌, Bool-cases, ltb→lt, not-ltb→le, length-append,
}
use libcsics.Queue.Memory.{Memory}
use libcsics.Queue.Spsc.{Queue, SpscError, ok, full, empty, new_queue}
use libcsics.Queue.Message.{try_push, try_pop, new_message_queue}
use libcsics.Queue.Message.Frames.{times_le}
use libcsics.Queue.Message.Fifo.Window.{IsShape, Represents}
use libcsics.Queue.Message.Fifo.Push.{try_push-Represents, try_push_full}
use libcsics.Queue.Message.Fifo.Pop.{try_pop-Represents, try_pop_empty}

pub data Call : Type 0 where
  push : List ℕ → Call
  pop : Call

abbrev pub Answer : Type 0
Answer = SpscError × Option (List ℕ)

-- A push takes a `T`, which has `t` bytes.
abbrev pub IsSized : ℕ → Call → Type 0
IsSized t (push value) = length value ≡ t
IsSized t pop = Unit

abbrev pub AllSized : ℕ → List Call → Type 0
AllSized t [] = Unit
AllSized t (c ∷ cs) = IsSized t c × AllSized t cs

-- One call on the queue, and the queue after it.
pub call : ℕ → Queue → Call → Answer × Queue
call t q (push value) = (((try_push t q value).0, none), (try_push t q value).1)
call t q pop = (((try_pop t q).0, (try_pop t q).1), (try_pop t q).2)

pub answers : ℕ → Queue → List Call → List Answer
answers t q [] = []
answers t q (c ∷ cs) = (call t q c).0 ∷ answers t ((call t q c).1) cs

-- The bounded queue of messages.
pub fifo_call : ℕ → List (List ℕ) → Call → Answer × List (List ℕ)
fifo_call n ms (push value) =
    if ltb (length ms) n then ((ok, none), ms ++ (value ∷ [])) else ((full, none), ms)
fifo_call n [] pop = ((empty, none), [])
fifo_call n (m ∷ ms) pop = ((ok, some m), ms)

pub fifo_answers : ℕ → List (List ℕ) → List Call → List Answer
fifo_answers n ms [] = []
fifo_answers n ms (c ∷ cs) = (fifo_call n ms c).0 ∷ fifo_answers n ((fifo_call n ms c).1) cs

-- The call gives the answer of the bounded queue, and the queue then holds what that holds.
record Follows (line n t : ℕ) (k : ℕ) (ms : List (List ℕ)) (p : Answer × Queue)
    (p' : Answer × List (List ℕ)) : Type 0 where
  same : p.0 ≡ p'.0
  oldest : ℕ
  holds : Represents line n t p.1 oldest p'.1
  near : oldest + length p'.1 ≤ k + length ms + 1

call-Follows :
    (line n t : ℕ) (q : Queue) (k : ℕ) (ms : List (List ℕ)) (c : Call)
    → IsShape line n t
    → Represents line n t q k ms
    → q.write_index < 2 ^ 62
    → IsSized t c
    → Follows line n t k ms (call t q c) (fifo_call n ms c)
unfolding call fifo_call
call-Follows line n t q k ms (push value) s r far len = elim (Bool-cases (ltb (length ms) n)) [
  | inl room ↦
      let lt = ltb→lt (length ms) n room in
      let (done, after) = try_push-Represents line n t q k ms value s r far lt len in
      rw room (record {
        same = ap (λ (e : SpscError). (e, none)) done;
        oldest = k;
        holds = after;
        near = omega (arith, length-append ms (value ∷ []));
      })
  | inr none_left ↦
      let all : length ms ≡ n = omega (arith, not-ltb→le (length ms) n none_left, r) in
      let e = try_push_full line n t q k ms value s r far all in
      rw (none_left, e) (record { same = refl; oldest = k; holds = r; near = omega arith })
]
call-Follows line n t q k [] pop s r far len =
    rw (try_pop_empty line n t q k r)
      (record { same = refl; oldest = k; holds = r; near = omega arith })
call-Follows line n t q k (m ∷ ms) pop s r far len =
    let (done, value, after) = try_pop-Represents line n t q k m ms s r far in
    record {
      same = ap₂ (λ (e : SpscError) (v : Option (List ℕ)). (e, v)) done value;
      oldest = suc k;
      holds = after;
      near = omega arith;
    }

pub answers-Represents :
    (line n t : ℕ) (q : Queue) (k : ℕ) (ms : List (List ℕ)) (cs : List Call)
    → IsShape line n t
    → Represents line n t q k ms
    → line * (k + length ms + length cs) < 2 ^ 62
    → AllSized t cs
    → answers t q cs ≡ fifo_answers n ms cs
unfolding answers fifo_answers
answers-Represents line n t q k ms [] s r far sized = refl
answers-Represents line n t q k ms (c ∷ cs) s r far (len, sized) =
    let before = times_le line (k + length ms) (k + length ms + suc (length cs)) (omega arith) in
    let f = call-Follows line n t q k ms c s r (omega (arith, r)) len in
    let after =
      times_le line (f.oldest + length (fifo_call n ms c).1 + length cs)
        (k + length ms + suc (length cs)) (omega (arith, f)) in
    ap₂ ◌∷◌ f.same (
      answers-Represents line n t ((call t q c).1) f.oldest ((fifo_call n ms c).1) cs s f.holds
        (omega arith) sized)

pub new-Represents :
    (line n t capacity : ℕ) (bytes : Memory)
    → (new_message_queue line t bytes capacity).capacity ≡ line * n
    → Represents line n t (new_message_queue line t bytes capacity) 0 []
unfolding new_message_queue new_queue
new-Represents line n t capacity bytes size = record {
  line_size = refl;
  lines = size;
  oldest = omega arith;
  next = omega arith;
  few = omega arith;
  framed = tt;
}

empty_start : (c : ℕ) → 0 + 0 + c ≡ c
empty_start c = omega arith

-- A queue made for messages of `t` bytes, at least one, that with their header are smaller than a
-- cache line, with a buffer of `n` lines below 2 ^ 62 bytes, answers any sequence of pushes of such
-- messages and of pops, short of an index of 2 ^ 62, as a first-in-first-out queue with `n` places
-- does: the messages come out whole and in order, a push is refused exactly when `n` messages are
-- unread, and a pop when none is.
pub answers-fifo :
    (line n t capacity : ℕ) (bytes : Memory) (cs : List Call)
    → IsShape line n t
    → (new_message_queue line t bytes capacity).capacity ≡ line * n
    → line * length cs < 2 ^ 62
    → AllSized t cs
    → answers t (new_message_queue line t bytes capacity) cs ≡ fifo_answers n [] cs
answers-fifo line n t capacity bytes cs s size far sized =
    answers-Represents line n t (new_message_queue line t bytes capacity) 0 [] cs s
      (new-Represents line n t capacity bytes size)
      (omega (arith, ap (λ (j : ℕ). line * j) (empty_start (length cs)))) sized
