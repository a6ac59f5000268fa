-- ===== src/Buffer/Store/Steps.antt =====
-- The operations on a buffer, each against the same operation on a list.
use libcsics.Base.{
  ℕ, ◌+◌, ◌-◌, ◌^◌, ◌≤◌, ◌≡◌, sym, ◌∙◌, inl, inr, ltb, leb, ◌==◌, ◌&&◌, true, if◌then◌else◌, List,
  [], ◌∷◌, ◌++◌, Option, none, some, length, get_elem?, take, drop, arith, Bool-cases, ltb→lt,
  ℕ-cases, ◌≢◌, ne→not-==,
}
use libcsics.Buffer.Cells.{drop_cell}
use libcsics.Buffer.Store.{
  Allocator, Buffer, push_back, append, pop_back, clear, erase, swap_and_pop, at, front, back,
}
use libcsics.Buffer.Store.Contents.{
  Holds, IsServing, Holds-sized, append-Holds, push_back-Holds, clear-Holds, shorter, cell_of,
  erase-Holds, without, swap_and_pop-Holds, at-Holds, front-Holds, back-Holds,
}

pub data Op {ℓ} (A : Type ℓ) : Type ℓ where
  push : A → Op A
  add_all : List A → Op A
  pop : Op A
  empty_out : Op A
  cut : ℕ → ℕ → Op A
  swap_out : ℕ → Op A
  look : ℕ → Op A
  look_first look_last : Op A

-- What is there after an operation, and the elements that it returns.
abbrev pub Outcome {ℓ κ} : Type ℓ → Type κ → Type (ℓ ⊔ κ)
Outcome C A = Option (C × List A)

abbrev pub silent {ℓ κ} : {C : Type ℓ} {A : Type κ} → Option C → Outcome C A
silent none = none
silent (some c) = some (c, [])

abbrev pub returned {ℓ κ} : {C : Type ℓ} {A : Type κ} → Option (A × C) → Outcome C A
returned none = none
returned (some (x, c)) = some (c, x ∷ [])

abbrev pub seen {ℓ κ} : {C : Type ℓ} {A : Type κ} → C → Option A → Outcome C A
seen c none = none
seen c (some x) = some (c, x ∷ [])

-- What the assertions of `erase` say.
pub guards :
    (first last n : ℕ)
    → (ltb first n && leb last n && leb first last) ≡ true
    → (last ≤ n) × (first ≤ last)
guards first last n good = ground arith

-- Both fail, or the buffer holds the list and the same elements are returned.
pub data Agree {ℓ} {A : Type ℓ} : Outcome (Buffer A) A → Outcome (List A) A → Type ℓ where
  neither : Agree none none
  both : {b : Buffer A} {xs ys : List A} → Holds b xs → Agree (some (b, ys)) (some (xs, ys))

module _ {ℓ} {A : Type ℓ} where
  unfoldable pub apply : Allocator A → Buffer A → Op A → Outcome (Buffer A) A
  apply new b (push x) = silent (push_back new x b)
  apply new b (add_all xs) = silent (append new xs b)
  apply new b pop = returned (pop_back b)
  apply new b empty_out = some (clear b, [])
  apply new b (cut first last) = silent (erase first last b)
  apply new b (swap_out pos) = silent (swap_and_pop pos b)
  apply new b (look i) = seen b (at i b)
  apply new b look_first = seen b (front b)
  apply new b look_last = seen b (back b)

  unfoldable pub apply_list : List A → Op A → Outcome (List A) A
  apply_list xs (push x) = some (xs ++ (x ∷ []), [])
  apply_list xs (add_all ys) = some (xs ++ ys, [])
  apply_list xs pop =
      if length xs == 0 then none else seen (take (length xs - 1) xs) (get_elem? xs (length xs - 1))
  apply_list xs empty_out = some ([], [])
  apply_list xs (cut first last) =
      if ltb first (length xs) && leb last (length xs) && leb first last
      then some (take first xs ++ drop last xs, [])
      else none
  apply_list xs (swap_out pos) =
      if ltb pos (length xs)
      then elim (get_elem? xs (length xs - 1)) [
        | none ↦ none
        | some x ↦ some (without pos xs x, [])
      ]
      else none
  apply_list xs (look i) = seen xs (get_elem? xs i)
  apply_list xs look_first = seen xs (get_elem? xs 0)
  apply_list xs look_last = seen xs (get_elem? xs (length xs - 1))

  -- How many elements the operations add.
  abbrev pub added : List (Op A) → ℕ
  added [] = 0
  added (push x ∷ ops) = 1 + added ops
  added (add_all xs ∷ ops) = length xs + added ops
  added (_ ∷ ops) = added ops

  -- The last cell of a buffer that is not empty holds the last element.
  last_held :
      (b : Buffer A) (xs : List A)
      → Holds b xs
      → b.size ≢ 0
      → (x : A) × (get_elem? b.cells (b.size - 1) ≡ some x) × (get_elem? xs (b.size - 1) ≡ some x)
  last_held b xs h ne =
      let sized = Holds-sized b xs h in
      let (x, at, behind) = drop_cell xs (b.size - 1) (omega arith) in
      (x, cell_of b xs (b.size - 1) h (omega arith) ∙ at, at)

  pop-Agree :
      (new : Allocator A) (b : Buffer A) (xs : List A)
      → Holds b xs
      → Agree (apply new b pop) (apply_list xs pop)
  unfolding apply apply_list pop_back
  pop-Agree new b xs h = rw (sym (Holds-sized b xs h)) (elim (ℕ-cases b.size 0) [
    | inl none_left ↦ simp none_left neither
    | inr some_left ↦
        let (x, at, at_list) = last_held b xs h some_left in
        rw (ne→not-== b.size 0 some_left, at, at_list)
          (both (shorter b xs (b.size - 1) h (omega arith)))
  ])

  cut-Agree :
      (new : Allocator A) (b : Buffer A) (xs : List A) (first last : ℕ)
      → Holds b xs
      → Agree (apply new b (cut first last)) (apply_list xs (cut first last))
  unfolding apply apply_list erase
  cut-Agree new b xs first last h =
      let sized = Holds-sized b xs h in
      rw (sym sized) (elim (Bool-cases (ltb first b.size && leb last b.size && leb first last)) [
        | inr bad ↦ rw bad neither
        | inl good ↦
            let (in_range, ordered) = guards first last b.size good in
            rw good (both (erase-Holds b xs first last h ordered (omega arith)))
      ])

  swap_out-Agree :
      (new : Allocator A) (b : Buffer A) (xs : List A) (pos : ℕ)
      → Holds b xs
      → Agree (apply new b (swap_out pos)) (apply_list xs (swap_out pos))
  unfolding apply apply_list swap_and_pop
  swap_out-Agree new b xs pos h =
      rw (sym (Holds-sized b xs h)) (elim (Bool-cases (ltb pos b.size)) [
        | inr out ↦ rw out neither
        | inl inside ↦
            let lt = ltb→lt pos b.size inside in
            let (x, at, at_list) = last_held b xs h (λ e. omega arith) in
            rw (inside, at, at_list) (both (swap_and_pop-Holds b xs pos x h))
      ])

  seen-Agree :
      (b : Buffer A) (xs : List A) (o : Option A) → Holds b xs → Agree (seen b o) (seen xs o)
  seen-Agree b xs none h = neither
  seen-Agree b xs (some x) h = both h

  pub apply-Agree :
      (new : Allocator A) (b : Buffer A) (xs : List A) (op : Op A)
      → IsServing new
      → Holds b xs
      → length xs + added (op ∷ []) ≤ 2 ^ 63
      → Agree (apply new b op) (apply_list xs op)
  unfolding apply apply_list
  apply-Agree new b xs (push x) serves h small =
      let (g, e, after) = push_back-Holds new b xs x serves h (omega arith) in rw e (both after)
  apply-Agree new b xs (add_all ys) serves h small =
      let (g, e, after) = append-Holds new b xs ys serves h (omega arith) in rw e (both after)
  apply-Agree new b xs pop serves h small = pop-Agree new b xs h
  apply-Agree new b xs empty_out serves h small = both (clear-Holds b xs h)
  apply-Agree new b xs (cut first last) serves h small = cut-Agree new b xs first last h
  apply-Agree new b xs (swap_out pos) serves h small = swap_out-Agree new b xs pos h
  apply-Agree new b xs (look i) serves h small =
      rw (at-Holds b xs i h) (seen-Agree b xs (get_elem? xs i) h)
  apply-Agree new b xs look_first serves h small =
      rw (front-Holds b xs h) (seen-Agree b xs (get_elem? xs 0) h)
  apply-Agree new b xs look_last serves h small =
      rw (back-Holds b xs h) (seen-Agree b xs (get_elem? xs (length xs - 1)) h)

  -- Those of the first operation, and of the others.
  pub added_cons : (op : Op A) (ops : List (Op A)) → added (op ∷ ops) ≡ added (op ∷ []) + added ops
  added_cons (push x) ops = omega arith
  added_cons (add_all xs) ops = omega arith
  added_cons pop ops = omega arith
  added_cons empty_out ops = omega arith
  added_cons (cut first last) ops = omega arith
  added_cons (swap_out pos) ops = omega arith
  added_cons (look i) ops = omega arith
  added_cons look_first ops = omega arith
  added_cons look_last ops = omega arith
