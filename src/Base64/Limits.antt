-- ===== src/Base64/Limits.antt =====
-- What the encoder reports when the output is full.
use libcsics.Base.{
  ℕ, suc, ◌+◌, ◌-◌, ◌*◌, ◌/◌, ◌%◌, ◌<◌, ◌≤◌, ◌≡◌, refl, sym, ap, ◌∙◌, List, [], ◌∷◌, ◌++◌, inl, inr,
  arith, ltb, length, length-append, take, All, append-nil, ltb→lt, not-ltb→le, Bool-cases,
}
use libcsics.Wire.{View}
use libcsics.Base64.{
  output_buffer_full, Base64Encoder, Outcome, put_4, get_4_chars, no_holdover_loop,
  encode_no_holdover, encode,
}
use libcsics.Base64.Standard.{IsByte, quad, bits24, groups}
use libcsics.Base64.Encode.{length-quad, put_quad}

-- The outcome of a loop that ran out of room: the input that is left and the room that is left, and
-- behind what was written the groups of the input's first bytes, three for each that has room.
pub record Full (input : List ℕ) (out : View) (r : Outcome) : Type 0 where
  pub status : r.0.status ≡ output_buffer_full
  pub processed : r.0.processed + 3 * (out.room / 4) ≡ length input
  pub output : r.0.output ≡ out.room % 4
  pub written : r.1.written ≡ out.written ++ groups (take (3 * (out.room / 4)) input)
  pub filled : length r.1.written ≡ length out.written + 4 * (out.room / 4)

-- One more group of room is one more group of the input.
groups-take :
    (a b c r : ℕ) (rest : List ℕ)
    → 4 ≤ r
    → groups (take (3 * (r / 4)) (a ∷ b ∷ c ∷ rest))
      ≡ quad (bits24 a b c) ++ groups (take (3 * ((r - 4) / 4)) rest)
groups-take a b c r rest le =
    let e : 3 * (r / 4) ≡ suc (suc (suc (3 * ((r - 4) / 4)))) = omega arith in
    ap (λ (n : ℕ). groups (take n (a ∷ b ∷ c ∷ rest))) e

nothing_taken : (r : ℕ) (input : List ℕ) → r < 4 → groups (take (3 * (r / 4)) input) ≡ []
nothing_taken r input lt =
    let e : 3 * (r / 4) ≡ 0 = omega arith in ap (λ (n : ℕ). groups (take n input)) e

length-get_4_chars : (a b c : ℕ) → length (get_4_chars a b c) ≡ 4
unfolding get_4_chars
length-get_4_chars a b c = refl

no_holdover_loop-Full :
    (input : List ℕ) (out : View) (h : Base64Encoder) (p o : ℕ)
    → All IsByte input
    → out.room < length (groups input)
    → Full input out (no_holdover_loop input out h p o)
unfolding no_holdover_loop
no_holdover_loop-Full (a ∷ b ∷ c ∷ rest) out h p o (ha, (hb, (hc, bytes))) few =
    elim (Bool-cases (ltb out.room 4)) [
      | inl full ↦
          let lt = ltb→lt out.room 4 full in
          rw full (record {
            status = refl;
            processed = omega arith;
            output = omega arith;
            written =
                sym (append-nil out.written)
                ∙ ap (◌++◌ out.written) (sym (nothing_taken out.room (a ∷ b ∷ c ∷ rest) lt));
            filled = omega arith;
          })
      | inr more ↦
          let le = not-ltb→le out.room 4 more in
          let ih =
            no_holdover_loop-Full rest (put_4 out (get_4_chars a b c)) h (p + 3) (o + 4) bytes (
              omega (
                arith,
                length-append (quad (bits24 a b c)) (groups rest),
                length-quad (bits24 a b c),
              )) in
          rw more (record {
            status = ih.status;
            processed = omega (arith, ih.processed);
            output = omega (arith, ih.output);
            written =
                ih.written
                ∙ put_quad a b c out (groups (take (3 * ((out.room - 4) / 4)) rest)) ha hb hc
                ∙ ap (◌++◌ out.written) (sym (groups-take a b c out.room rest le));
            filled = omega (
              arith,
              ih.filled,
              length-append out.written (get_4_chars a b c),
              length-get_4_chars a b c,
            );
          })
    ]
no_holdover_loop-Full (a ∷ b ∷ []) out h p o bytes few = absurd (omega arith)
no_holdover_loop-Full (a ∷ []) out h p o bytes few = absurd (omega arith)
no_holdover_loop-Full [] out h p o bytes few = absurd (omega arith)

-- An encoder that holds nothing over, given bytes and less room than their full groups need, writes
-- the groups that have room, which are those of its input's first 3 * (room / 4) bytes, and then
-- reports that the output is full, as `processed` the number of input bytes that are left instead of
-- those it took, and as `output` the room that is left.
pub encode-Full :
    (input : List ℕ) (out : View) (h : Base64Encoder)
    → All IsByte input
    → h.count ≡ 0
    → out.room < length (groups input)
    → Full input out (encode input out h)
unfolding encode encode_no_holdover
encode-Full [] out h bytes e few = absurd (omega arith)
encode-Full (x ∷ xs) out h bytes e few = simp e (no_holdover_loop-Full (x ∷ xs) out h 0 0 bytes few)
