-- ===== src/Wire/Writes.antt =====
-- What a row of writes leaves in the view, when it fits and when it does not.
use libcsics.Base.{
  ℕ, ◌+◌, ◌-◌, ◌≤◌, ◌≡◌, refl, ap, ◌∙◌, List, [], ◌∷◌, ◌++◌, append-nil, append_assoc, arith,
  length, length-append, le→not-ltb,
}
use libcsics.Wire.{View, write, emit}
use libcsics.Wire.Reads.{stream}

-- The number of bytes in the pieces.
abbrev pub total : List (List ℕ) → ℕ
total [] = 0
total (c ∷ cs) = length c + total cs

pub total-append : (cs ds : List (List ℕ)) → total (cs ++ ds) ≡ total cs + total ds
total-append [] ds = omega arith
total-append (c ∷ cs) ds = omega (arith, total-append cs ds)

pub length-stream :
    (cs : List (List ℕ)) (rest : List ℕ) → length (stream cs rest) ≡ total cs + length rest
length-stream [] rest = omega arith
length-stream (c ∷ cs) rest = omega (arith, length-append c (stream cs rest), length-stream cs rest)

pub stream-rest : (cs : List (List ℕ)) (rest : List ℕ) → stream cs [] ++ rest ≡ stream cs rest
stream-rest [] rest = refl
stream-rest (c ∷ cs) rest = append_assoc c (stream cs []) rest ∙ ap (◌++◌ c) (stream-rest cs rest)

write_fits :
    (v : View) (c : List ℕ)
    → length c ≤ v.room
    → (write v c).0 ≡ record { written = v.written ++ c; room = v.room - length c }
unfolding write
write_fits v c h = rw (le→not-ltb v.room (length c) h)

-- With enough room every piece is written, in order.
pub emit_fits :
    (v : View) (cs : List (List ℕ))
    → total cs ≤ v.room
    → emit v cs ≡ record { written = v.written ++ stream cs []; room = v.room - total cs }
unfolding emit
emit_fits v [] h = ground (arith, append-nil v.written)
emit_fits v (c ∷ cs) h = rw (write_fits v c (omega arith)) (
    emit_fits (record { written = v.written ++ c; room = v.room - length c }) cs (omega arith)
    ∙ ground (arith, append_assoc v.written c (stream cs [])))

write_balance :
    (v : View) (c : List ℕ)
    → length (write v c).0.written + (write v c).0.room ≡ length v.written + v.room
unfolding write
write_balance v c = ground (arith, length-append v.written c)

-- However little room there is, a row of writes takes from the room exactly the bytes that it
-- writes.
pub emit_balance :
    (v : View) (cs : List (List ℕ))
    → length (emit v cs).written + (emit v cs).room ≡ length v.written + v.room
unfolding emit
emit_balance v [] = refl
emit_balance v (c ∷ cs) = emit_balance (write v c).0 cs ∙ write_balance v c
