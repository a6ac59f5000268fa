-- ===== src/Buffer/Store/Contents.antt =====
-- What each operation makes of the elements of a buffer.
use libcsics.Base.{
  ℕ, ◌+◌, ◌-◌, ◌^◌, ◌≤◌, ◌<◌, ◌≡◌, refl, sym, ap, ap₂, ◌∙◌, inl, inr, ltb, ◌==◌, List, [], ◌∷◌,
  ◌++◌, length, get_elem?, set, take, drop, arith, add_size, Bool-cases, not-ltb→le, ne→not-==,
  ℕ-cases, ==_refl, if◌then◌else◌, append-nil, subst, length-set, Option, some, le→not-ltb, none,
  zero, suc, leb, leb→le, not-leb→lt, ◌≢◌,
}
use libcsics.Buffer.Capacity.{adjust_capacity, IsGenerous, adjust_capacity-le}
use libcsics.Buffer.Cells.{
  copy_to, move_down, length-copy_to, length-move_down, take-copy_to, take-move_down, take-take,
  drop-take, length-take_le, get_elem?-take, take-set, take-set_beyond,
}
use libcsics.Buffer.Store.{
  Allocator, Buffer, change, write_behind, at, front, back, clear, reallocate, add_capacity_for,
  push_back, append,
}

module _ {ℓ} {A : Type ℓ} where
  -- The elements of the buffer.
  abbrev pub contents : Buffer A → List A
  contents b = take b.size b.cells

  pub record IsBuffer (b : Buffer A) : Type 0 where
    pub fits : b.size ≤ b.capacity
    pub allocated : length b.cells ≡ b.capacity

  -- The buffer is well formed and has these elements.
  pub record Holds (b : Buffer A) (xs : List A) : Type ℓ where
    pub valid : IsBuffer b
    pub elements : contents b ≡ xs

  pub length-contents : (b : Buffer A) → IsBuffer b → length (contents b) ≡ b.size
  length-contents b v = length-take_le b.size b.cells (omega (arith, v))

  pub Holds-sized : (b : Buffer A) (xs : List A) → Holds b xs → b.size ≡ length xs
  Holds-sized b xs h = sym (length-contents b h.valid) ∙ ap length h.elements

  module _ (new : Allocator A) where
    -- Every request up to 2 ^ 63 is one that the policy serves in full.
    abbrev pub IsServing : Type 0
    IsServing = (n : ℕ) → n ≤ 2 ^ 63 → IsGenerous new.policy n

    -- A buffer that keeps its elements and has room for n more.
    record Grows (b : Buffer A) (n : ℕ) (o : Option (Buffer A)) : Type ℓ where
      grown : Buffer A
      result : o ≡ some grown
      room : b.size + n ≤ grown.capacity
      allocated : length grown.cells ≡ grown.capacity
      sized : grown.size ≡ b.size
      kept : contents grown ≡ contents b

    reallocate-Grows :
        (b : Buffer A) (n : ℕ)
        → IsServing
        → IsBuffer b
        → b.size + n ≤ 2 ^ 63
        → Grows b n (reallocate new (b.size + n) b)
    unfolding reallocate
    reallocate-Grows b n serves v small =
        let le =
          adjust_capacity-le new.rounding new.policy (b.size + n) (serves (b.size + n) small) in
        let cap = adjust_capacity new.rounding new.policy (b.size + n) in
        let raw = new.length-raw cap in
        let old = length-contents b v in
        let cells = copy_to (new.raw cap) 0 (contents b) in
        record {
          grown = record b { capacity = cap; cells = cells };
          result = rw (le→not-ltb cap b.size (omega arith)) refl;
          room = le;
          allocated = length-copy_to (new.raw cap) 0 (contents b) ∙ raw;
          sized = refl;
          kept =
              ap (λ (k : ℕ). take k cells) (omega arith)
              ∙ take-copy_to (new.raw cap) 0 (contents b) (omega arith);
        }

    add_capacity_for-Grows :
        (b : Buffer A) (n : ℕ)
        → IsServing
        → IsBuffer b
        → b.size + n ≤ 2 ^ 63
        → Grows b n (add_capacity_for new n b)
    unfolding add_capacity_for
    add_capacity_for-Grows b n serves v small =
        let whole : add_size b.size n ≡ b.size + n = omega arith in
        rw whole (elim (Bool-cases (ltb b.capacity (b.size + n))) [
          | inl more ↦ rw more (reallocate-Grows b n serves v small)
          | inr enough ↦ rw enough (record {
            grown = b;
            result = refl;
            room = not-ltb→le b.capacity (b.size + n) enough;
            allocated = v.allocated;
            sized = refl;
            kept = refl;
          })
        ])

    -- The elements behind those of a grown buffer.
    filled :
        (b : Buffer A) (xs ys : List A) (o : Option (Buffer A))
        → Holds b xs
        → Grows b (length ys) o
        → length xs + length ys ≤ 2 ^ 63
        → (g : Buffer A) × (change (write_behind ys) o ≡ some g) × Holds g (xs ++ ys)
    filled b xs ys o h grows small =
        let g = grows.grown in
        let sizes = grows.sized in
        let whole : add_size g.size (length ys) ≡ g.size + length ys =
          omega (arith, (Holds-sized b xs h)) in
        let copied = length-copy_to g.cells g.size ys in
        (
          record g { cells = copy_to g.cells g.size ys; size = add_size g.size (length ys) },
          rw
              (
                grows.result,
                le→not-ltb (length g.cells) (g.size + length ys)
                    (omega (arith, grows.room, grows.allocated)),
              )
              refl,
          record {
            valid = record {
              fits = omega (arith, grows.room);
              allocated = copied ∙ grows.allocated;
            };
            elements =
                ap (λ (k : ℕ). take k (copy_to g.cells g.size ys)) whole
                ∙ take-copy_to g.cells g.size ys (omega (arith, grows.room, grows.allocated))
                ∙ ap (λ zs. zs ++ ys) (grows.kept ∙ h.elements);
          },
        )

    pub append-Holds :
        (b : Buffer A) (xs ys : List A)
        → IsServing
        → Holds b xs
        → length xs + length ys ≤ 2 ^ 63
        → (g : Buffer A) × (append new ys b ≡ some g) × Holds g (xs ++ ys)
    unfolding append
    append-Holds b xs [] serves h small = (b, refl, subst (Holds b) (sym (append-nil xs)) h)
    append-Holds b xs (y ∷ ys) serves h small = rw (ne→not-== (length (y ∷ ys)) 0 (omega arith)) (
        filled b xs (y ∷ ys) (add_capacity_for new (length (y ∷ ys)) b) h
          (add_capacity_for-Grows b (length (y ∷ ys)) serves h.valid
            (omega (arith, (Holds-sized b xs h))))
          small)

    pub push_back-Holds :
        (b : Buffer A) (xs : List A) (y : A)
        → IsServing
        → Holds b xs
        → length xs + 1 ≤ 2 ^ 63
        → (g : Buffer A) × (push_back new y b ≡ some g) × Holds g (xs ++ (y ∷ []))
    unfolding push_back
    push_back-Holds b xs y serves h small =
        filled b xs (y ∷ []) (add_capacity_for new 1 b) h
          (add_capacity_for-Grows b 1 serves h.valid (omega (arith, (Holds-sized b xs h)))) small

  pub clear-Holds : (b : Buffer A) (xs : List A) → Holds b xs → Holds (clear b) []
  unfolding clear
  clear-Holds b xs h = record {
    valid = record { fits = omega arith; allocated = h.valid.allocated };
    elements = refl;
  }

  -- A buffer whose size is cut.
  pub shorter :
      (b : Buffer A) (xs : List A) (n : ℕ)
      → Holds b xs
      → n ≤ b.size
      → Holds (record b { size = n }) (take n xs)
  shorter b xs n h le =
      let same : take n b.cells ≡ take n xs =
        sym (take-take n b.size b.cells le) ∙ ap (take n) h.elements in
      record {
        valid = record { fits = omega (arith, h.valid); allocated = h.valid.allocated };
        elements = same;
      }

  pub cell_of :
      (b : Buffer A) (xs : List A) (i : ℕ)
      → Holds b xs
      → i < length xs
      → get_elem? b.cells i ≡ get_elem? xs i
  cell_of b xs i h lt =
      sym (get_elem?-take b.size i b.cells (omega (arith, (Holds-sized b xs h))))
      ∙ ap (λ ys. get_elem? ys i) h.elements

  pub erase-Holds :
      (b : Buffer A) (xs : List A) (first last : ℕ)
      → Holds b xs
      → first ≤ last
      → last ≤ length xs
      → Holds
          (record b {
            cells = move_down (b.size - last) first last b.cells;
            size = b.size - (last - first);
          })
          (take first xs ++ drop last xs)
  erase-Holds b xs first last h le lt =
      let sized = (Holds-sized b xs h) in
      let valid = h.valid in
      let moved : take (first + (b.size - last)) (move_down (b.size - last) first last b.cells)
          ≡ take first b.cells ++ take (b.size - last) (drop last b.cells) =
        take-move_down (b.size - last) first last b.cells le (omega (arith, valid)) in
      let front : take first b.cells ≡ take first xs =
        sym (take-take first b.size b.cells (omega arith)) ∙ ap (take first) h.elements in
      let behind : take (b.size - last) (drop last b.cells) ≡ drop last xs =
        sym (drop-take last b.size b.cells (omega arith)) ∙ ap (drop last) h.elements in
      let whole : take (b.size - (last - first)) (move_down (b.size - last) first last b.cells)
          ≡ take first xs ++ drop last xs =
        ap (λ (k : ℕ). take k (move_down (b.size - last) first last b.cells)) (omega arith)
        ∙ moved
        ∙ ap₂ ◌++◌ front behind in
      let cells = length-move_down (b.size - last) first last b.cells in
      record {
        valid = record { fits = omega (arith, valid); allocated = cells ∙ valid.allocated };
        elements = whole;
      }

  -- The elements with the last one in the place of the one at the position, and one fewer.
  abbrev pub without : ℕ → List A → A → List A
  without pos xs x = take (length xs - 1) (set xs pos x)

  -- The cell that is past the new end may be set or not.
  last_cell :
      (n pos : ℕ) (cells : List A) (x : A)
      → take n (if pos == n then cells else set cells pos x) ≡ take n (set cells pos x)
  last_cell n pos cells x = elim (ℕ-cases pos n) [
    | inl same ↦ rw (same, ==_refl n) (sym (take-set_beyond n n cells x (omega arith)))
    | inr other ↦ rw (ne→not-== pos n other)
  ]

  swapped_length :
      (n pos : ℕ) (cells : List A) (x : A)
      → length (if pos == n then cells else set cells pos x) ≡ length cells
  swapped_length n pos cells x = ground (arith, length-set cells pos x)

  pub swap_and_pop-Holds :
      (b : Buffer A) (xs : List A) (pos : ℕ) (x : A)
      → Holds b xs
      → Holds
          (record b {
            cells = if pos == (b.size - 1) then b.cells else set b.cells pos x;
            size = b.size - 1;
          })
          (without pos xs x)
  swap_and_pop-Holds b xs pos x h =
      let n = b.size - 1 in
      let sized : length xs - 1 ≡ b.size - 1 = omega (arith, Holds-sized b xs h) in
      let valid = h.valid in
      record {
        valid = record {
          fits = omega (arith, valid);
          allocated = swapped_length n pos b.cells x ∙ valid.allocated;
        };
        elements =
            last_cell n pos b.cells x
            ∙ take-set n pos b.cells x
            ∙ ap (λ ys. set ys pos x)
                (sym (take-take n b.size b.cells (omega arith)) ∙ ap (take n) h.elements)
            ∙ sym (take-set n pos xs x)
            ∙ ap (λ (k : ℕ). take k (set xs pos x)) (sym sized);
      }

  beyond : (xs : List A) (i : ℕ) → length xs ≤ i → get_elem? xs i ≡ none
  beyond [] i h = refl
  beyond (x ∷ xs) zero h = absurd (omega arith)
  beyond (x ∷ xs) (suc i) h = beyond xs i (omega arith)

  -- What the three ways to read give, of the elements.
  pub at-Holds : (b : Buffer A) (xs : List A) (i : ℕ) → Holds b xs → at i b ≡ get_elem? xs i
  unfolding at
  at-Holds b xs i h =
      let sized = Holds-sized b xs h in
      elim (Bool-cases (leb b.size i)) [
        | inl out ↦ rw (out, beyond xs i (omega (arith, leb→le b.size i out))) refl
        | inr inside ↦ rw inside (cell_of b xs i h (omega (arith, not-leb→lt b.size i inside)))
      ]

  read-Holds :
      (b : Buffer A) (xs : List A) (i : ℕ)
      → Holds b xs
      → (b.size ≢ 0 → i < b.size)
      → (if b.size == 0 then none else get_elem? b.cells i) ≡ get_elem? xs i
  read-Holds b xs i h inside =
      let sized = Holds-sized b xs h in
      elim (ℕ-cases b.size 0) [
        | inl empty ↦ simp empty (sym (beyond xs i (omega arith)))
        | inr some_left ↦
            rw (ne→not-== b.size 0 some_left) (cell_of b xs i h (omega (arith, inside some_left)))
      ]

  pub front-Holds : (b : Buffer A) (xs : List A) → Holds b xs → front b ≡ get_elem? xs 0
  unfolding front
  front-Holds b xs h = read-Holds b xs 0 h (λ ne. omega arith)

  pub back-Holds : (b : Buffer A) (xs : List A) → Holds b xs → back b ≡ get_elem? xs (length xs - 1)
  unfolding back
  back-Holds b xs h =
      read-Holds b xs (b.size - 1) h (λ ne. omega arith)
      ∙ ap (λ (n : ℕ). get_elem? xs (n - 1)) (Holds-sized b xs h)
