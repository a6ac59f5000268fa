-- ===== src/Buffer/Store/Runs.antt =====
-- Any sequence of operations on a buffer, against the same sequence on a list.
use libcsics.Base.{
  ℕ, zero, suc, ◌+◌, ◌-◌, ◌^◌, ◌≤◌, inl, inr, ltb, leb, ◌==◌, ◌&&◌, List, [], ◌∷◌, ◌++◌, Option,
  none, some, length, get_elem?, set, length-set, take, drop, arith, Bool-cases, length-append,
}
use libcsics.Buffer.Store.{Allocator, Buffer}
use libcsics.Buffer.Store.Contents.{Holds, IsServing, without}
use libcsics.Buffer.Store.Steps.{
  Op, push, add_all, pop, empty_out, cut, swap_out, look, look_first, look_last, Outcome, seen,
  guards, Agree, neither, both, apply, apply_list, added, added_cons, apply-Agree,
}

-- What two operations return, one after the other.
abbrev behind {ℓ κ} : {C : Type ℓ} {A : Type κ} → List A → Outcome C A → Outcome C A
behind ys none = none
behind ys (some (c, zs)) = some (c, ys ++ zs)

abbrev and_then {ℓ κ} : {C : Type ℓ} {A : Type κ} → (C → Outcome C A) → Outcome C A → Outcome C A
and_then f none = none
and_then f (some (c, ys)) = behind ys (f c)

module _ {ℓ} {A : Type ℓ} where
  -- All of them in turn, up to one that fails.
  pub run : Allocator A → List (Op A) → Buffer A → Outcome (Buffer A) A
  run new [] b = some (b, [])
  run new (op ∷ ops) b = and_then (run new ops) (apply new b op)

  unfoldable pub run_list : List (Op A) → List A → Outcome (List A) A
  run_list [] xs = some (xs, [])
  run_list (op ∷ ops) xs = and_then (run_list ops) (apply_list xs op)

  -- The list, if there is one, has at most n elements.
  abbrev Short : ℕ → Outcome (List A) A → Type 0
  Short n none = Unit
  Short n (some (xs, ys)) = length xs ≤ n

  length-take-le : (n : ℕ) (xs : List A) → length (take n xs) ≤ length xs
  length-take-le zero xs = omega arith
  length-take-le (suc n) [] = omega arith
  length-take-le (suc n) (x ∷ xs) = omega (arith, length-take-le n xs)

  length-cut-le :
      (first last : ℕ) (xs : List A)
      → first ≤ last
      → length (take first xs ++ drop last xs) ≤ length xs
  length-cut-le zero zero xs h = omega arith
  length-cut-le zero (suc last) [] h = omega arith
  length-cut-le zero (suc last) (x ∷ xs) h = omega (arith, length-cut-le zero last xs (omega arith))
  length-cut-le (suc first) zero xs h = absurd (omega arith)
  length-cut-le (suc first) (suc last) [] h = omega arith
  length-cut-le (suc first) (suc last) (x ∷ xs) h =
      omega (arith, length-cut-le first last xs (omega arith))

  seen-Short : (n : ℕ) (xs : List A) (o : Option A) → length xs ≤ n → Short n (seen xs o)
  seen-Short n xs none h = tt
  seen-Short n xs (some x) h = h

  apply_list-Short :
      (xs : List A) (op : Op A) → Short (length xs + added (op ∷ [])) (apply_list xs op)
  unfolding apply_list
  apply_list-Short xs (push x) = omega (arith, length-append xs (x ∷ []))
  apply_list-Short xs (add_all ys) = omega (arith, length-append xs ys)
  apply_list-Short xs pop = elim (Bool-cases (length xs == 0)) [
    | inl empty ↦ rw empty tt
    | inr some_left ↦ rw some_left (
        seen-Short (length xs + 0) (take (length xs - 1) xs) (get_elem? xs (length xs - 1))
          (omega (arith, length-take-le (length xs - 1) xs)))
  ]
  apply_list-Short xs empty_out = omega arith
  apply_list-Short xs (cut first last) =
      elim (Bool-cases (ltb first (length xs) && leb last (length xs) && leb first last)) [
        | inr bad ↦ rw bad tt
        | inl good ↦
            let (in_range, ordered) = guards first last (length xs) good in
            rw good (omega (arith, length-cut-le first last xs ordered))
      ]
  apply_list-Short xs (swap_out pos) = elim (Bool-cases (ltb pos (length xs))) [
    | inr out ↦ rw out tt
    | inl inside ↦ rw inside (swapped (get_elem? xs (length xs - 1)))
  ]
    where
      swapped :
          (o : Option A)
          → Short (length xs + 0) (elim o [ none ↦ none | some x ↦ some (without pos xs x, []) ])
      swapped none = tt
      swapped (some x) =
          omega (arith, length-take-le (length xs - 1) (set xs pos x), length-set xs pos x)
  apply_list-Short xs (look i) = seen-Short (length xs + 0) xs (get_elem? xs i) (omega arith)
  apply_list-Short xs look_first = seen-Short (length xs + 0) xs (get_elem? xs 0) (omega arith)
  apply_list-Short xs look_last =
      seen-Short (length xs + 0) xs (get_elem? xs (length xs - 1)) (omega arith)

  behind-Agree :
      (ys : List A) (o : Outcome (Buffer A) A) (p : Outcome (List A) A)
      → Agree o p
      → Agree (behind ys o) (behind ys p)
  behind-Agree ys none none neither = neither
  behind-Agree ys none (some xs) agree = elim agree [ ]
  behind-Agree ys (some b) none agree = elim agree [ ]
  behind-Agree ys (some o) (some p) (both h) = both h

  run_rest :
      (new : Allocator A) (ops : List (Op A)) (n : ℕ)
      → ((b : Buffer A) (xs : List A)
          → Holds b xs
          → length xs ≤ n
          → Agree (run new ops b) (run_list ops xs))
      → (o : Outcome (Buffer A) A) (p : Outcome (List A) A) → Agree o p
      → Short n p
      → Agree (and_then (run new ops) o) (and_then (run_list ops) p)
  run_rest new ops n each none none neither short = neither
  run_rest new ops n each none (some xs) agree short = elim agree [ ]
  run_rest new ops n each (some b) none agree short = elim agree [ ]
  run_rest new ops n each (some o) (some p) (both {b} {xs} {ys} h) short =
      behind-Agree ys (run new ops b) (run_list ops xs) (each b xs h short)

  -- Whatever operations a program does on a buffer that holds a list, they succeed exactly when the
  -- same operations on the list do, return the same elements, and leave the buffer with the list that
  -- those give, where the policy serves every request up to 2 ^ 63 in full and no more elements than
  -- that are added.
  pub run-Agree :
      (new : Allocator A) (ops : List (Op A)) (b : Buffer A) (xs : List A)
      → IsServing new
      → Holds b xs
      → length xs + added ops ≤ 2 ^ 63
      → Agree (run new ops b) (run_list ops xs)
  unfolding run run_list
  run-Agree new [] b xs serves h small = both h
  run-Agree new (op ∷ ops) b xs serves h small =
      let one = added_cons op ops in
      run_rest new ops (length xs + added (op ∷ []))
        (λ b' ys h' short. run-Agree new ops b' ys serves h' (omega arith)) (apply new b op)
        (apply_list xs op) (apply-Agree new b xs op serves h (omega arith)) (apply_list-Short xs op)
