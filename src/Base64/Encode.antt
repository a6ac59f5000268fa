-- ===== src/Base64/Encode.antt =====
-- One call of the encoder: which groups it writes, and which bytes it holds over.
use libcsics.Base.{
  ℕ, zero, suc, ◌+◌, ◌≤◌, ◌≡◌, ◌≢◌, refl, sym, ap, ◌∙◌, List, [], ◌∷◌, ◌++◌, append-nil,
  append_assoc, arith, ◌==◌, if◌then◌else◌, length, length-append, All, le→not-ltb,
}
use libcsics.Wire.{View}
use libcsics.Base64.{
  ok, Base64Encoder, Outcome, result, put_4, add_to, get_4_chars, no_holdover_loop,
  encode_no_holdover, encode_1_holdover, encode_2_holdover, encode,
}
use libcsics.Base64.Standard.{IsByte, quad, bits24, groups, leftover}
use libcsics.Base64.Chars.{get_4_chars-quad}

pub groups-append : (xs ys : List ℕ) → groups (xs ++ ys) ≡ groups xs ++ groups (leftover xs ++ ys)
groups-append (a ∷ b ∷ c ∷ rest) ys =
    ap (◌++◌ (quad (bits24 a b c))) (groups-append rest ys)
    ∙ sym (append_assoc (quad (bits24 a b c)) (groups rest) (groups (leftover rest ++ ys)))
groups-append (a ∷ b ∷ []) ys = refl
groups-append (a ∷ []) ys = refl
groups-append [] ys = refl

pub leftover-append : (xs ys : List ℕ) → leftover (xs ++ ys) ≡ leftover (leftover xs ++ ys)
leftover-append (a ∷ b ∷ c ∷ rest) ys = leftover-append rest ys
leftover-append (a ∷ b ∷ []) ys = refl
leftover-append (a ∷ []) ys = refl
leftover-append [] ys = refl

pub length-quad : (n : ℕ) → length (quad n) ≡ 4
unfolding quad
length-quad n = refl

-- Four characters and what follows them.
pub put_quad :
    (a b c : ℕ) (out : View) (xs : List ℕ)
    → IsByte a
    → IsByte b
    → IsByte c
    → (out.written ++ get_4_chars a b c) ++ xs ≡ out.written ++ (quad (bits24 a b c) ++ xs)
put_quad a b c out xs ha hb hc =
    append_assoc out.written (get_4_chars a b c) xs
    ∙ ap (λ q. out.written ++ (q ++ xs)) (get_4_chars-quad a b c ha hb hc)

-- The bytes that the encoder holds over.
abbrev pub pending : Base64Encoder → List ℕ
pending h =
    if h.count == 0 then [] else (if h.count == 1 then h.first ∷ [] else h.first ∷ h.second ∷ [])

pub record IsEncoder (h : Base64Encoder) : Type 0 where
  pub few : h.count ≤ 2
  pub bytes : All IsByte (pending h)

-- What encoding `input` after `held` bytes does, when there is room.
pub record Encodes (held input : List ℕ) (out : View) (r : Outcome) : Type 0 where
  pub status : r.0.status ≡ ok
  pub processed : r.0.processed ≡ length input
  pub output : r.0.output ≡ length (groups (held ++ input))
  pub written : r.1.written ≡ out.written ++ groups (held ++ input)
  pub room : r.1.room + length (groups (held ++ input)) ≡ out.room
  pub keeps : pending r.2 ≡ leftover (held ++ input)
  pub valid : IsEncoder r.2

-- The loop, after `p` bytes in and `o` bytes out.
record Loops (input : List ℕ) (out : View) (p o : ℕ) (r : Outcome) : Type 0 where
  status : r.0.status ≡ ok
  processed : r.0.processed ≡ p + length input
  output : r.0.output ≡ o + length (groups input)
  written : r.1.written ≡ out.written ++ groups input
  room : r.1.room + length (groups input) ≡ out.room
  keeps : pending r.2 ≡ leftover input
  valid : IsEncoder r.2

no_holdover_loop_lem :
    (input : List ℕ) (out : View) (h : Base64Encoder) (p o : ℕ)
    → All IsByte input
    → length (groups input) ≤ out.room
    → Loops input out p o (no_holdover_loop input out h p o)
unfolding no_holdover_loop
no_holdover_loop_lem (a ∷ b ∷ c ∷ rest) out h p o hb fits =
    let four = length-append (quad (bits24 a b c)) (groups rest) in
    let quad_four = length-quad (bits24 a b c) in
    let next = put_4 out (get_4_chars a b c) in
    let ih = no_holdover_loop_lem rest next h (p + 3) (o + 4) hb.1.1.1 (omega arith) in
    rw (le→not-ltb out.room 4 (omega arith)) (record {
      status = ih.status;
      processed = omega (arith, ih.processed);
      output = omega (arith, ih.output);
      written = ih.written ∙ put_quad a b c out (groups rest) hb.0 hb.1.0 hb.1.1.0;
      room = omega (arith, ih.room);
      keeps = ih.keeps;
      valid = ih.valid;
    })
no_holdover_loop_lem (a ∷ b ∷ []) out h p o hb fits = record {
  status = refl;
  processed = omega arith;
  output = omega arith;
  written = sym (append-nil out.written);
  room = omega arith;
  keeps = refl;
  valid = record { few = omega arith; bytes = hb };
}
no_holdover_loop_lem (a ∷ []) out h p o hb fits = record {
  status = refl;
  processed = omega arith;
  output = omega arith;
  written = sym (append-nil out.written);
  room = omega arith;
  keeps = refl;
  valid = record { few = omega arith; bytes = hb };
}
no_holdover_loop_lem [] out h p o hb fits = record {
  status = refl;
  processed = omega arith;
  output = omega arith;
  written = sym (append-nil out.written);
  room = omega arith;
  keeps = refl;
  valid = record { few = omega arith; bytes = tt };
}

no_holdover_lem :
    (input : List ℕ) (out : View) (h : Base64Encoder)
    → All IsByte input
    → length (groups input) ≤ out.room
    → Encodes [] input out (encode_no_holdover input out h)
unfolding encode_no_holdover
no_holdover_lem input out h hb fits =
    let l = no_holdover_loop_lem input out h 0 0 hb fits in
    record {
      status = l.status;
      processed = omega (arith, l.processed);
      output = omega (arith, l.output);
      written = l.written;
      room = l.room;
      keeps = l.keeps;
      valid = l.valid;
    }

-- A group that is made up of the held bytes and the first of the input.
add_to_lem :
    (a b c n : ℕ) (held rest input : List ℕ) (out : View) (h : Base64Encoder)
    → held ++ input ≡ a ∷ b ∷ c ∷ rest
    → length input ≡ n + length rest
    → IsByte a
    → IsByte b
    → IsByte c
    → All IsByte rest
    → length (groups (a ∷ b ∷ c ∷ rest)) ≤ out.room
    → Encodes held input out (add_to n (encode_no_holdover rest (put_4 out (get_4_chars a b c)) h))
add_to_lem a b c n held rest input out h e m ha hb hc hr fits =
    let four = length-append (quad (bits24 a b c)) (groups rest) in
    let quad_four = length-quad (bits24 a b c) in
    let l = no_holdover_lem rest (put_4 out (get_4_chars a b c)) h hr (omega arith) in
    record {
      status = l.status;
      processed = omega (arith, l.processed);
      output = rw e (omega (arith, l.output));
      written = rw e (l.written ∙ put_quad a b c out (groups rest) ha hb hc);
      room = rw e (omega (arith, l.room));
      keeps = rw e l.keeps;
      valid = l.valid;
    }

abbrev pub held : ℕ → ℕ → ℕ → Base64Encoder
held n a b = record { count = n; first = a; second = b }

-- Nothing to encode: the held bytes fill no group.
encode-Encodes_nil :
    (out : View) (h : Base64Encoder) → IsEncoder h → Encodes (pending h) [] out (encode [] out h)
unfolding encode
encode-Encodes_nil out h v = by_count h.count h.first h.second v
  where
    by_count :
        (n a b : ℕ)
        → IsEncoder (held n a b)
        → Encodes (pending (held n a b)) [] out (result 0 0 ok, out, held n a b)
    by_count zero a b w = record {
      status = refl;
      processed = refl;
      output = refl;
      written = sym (append-nil out.written);
      room = omega arith;
      keeps = refl;
      valid = w;
    }
    by_count (suc zero) a b w = record {
      status = refl;
      processed = refl;
      output = refl;
      written = sym (append-nil out.written);
      room = omega arith;
      keeps = refl;
      valid = w;
    }
    by_count (suc (suc zero)) a b w = record {
      status = refl;
      processed = refl;
      output = refl;
      written = sym (append-nil out.written);
      room = omega arith;
      keeps = refl;
      valid = w;
    }
    by_count (suc (suc (suc n))) a b w = absurd (omega (arith, w.few))

-- One byte is held.
encode_1_holdover_lem :
    (a b : ℕ) (input : List ℕ) (out : View)
    → input ≢ []
    → IsByte a
    → All IsByte input
    → length (groups (a ∷ input)) ≤ out.room
    → Encodes (a ∷ []) input out (encode_1_holdover input out (held 1 a b))
unfolding encode_1_holdover
encode_1_holdover_lem a b [] out ne ha hb fits = absurd (ne refl)
encode_1_holdover_lem a b (x ∷ []) out ne ha hb fits = record {
  status = refl;
  processed = refl;
  output = refl;
  written = sym (append-nil out.written);
  room = omega arith;
  keeps = refl;
  valid = record { few = omega arith; bytes = (ha, hb) };
}
encode_1_holdover_lem a b (x ∷ y ∷ rest) out ne ha hb fits =
    rw
      (le→not-ltb out.room 4 (
        omega
          (arith, length-append (quad (bits24 a x y)) (groups rest), length-quad (bits24 a x y))))
      (add_to_lem a x y 2 (a ∷ []) rest (x ∷ y ∷ rest) out (held 1 a b) refl (omega arith) ha hb.0
        hb.1.0 hb.1.1 fits)

-- Two bytes are held.
encode_2_holdover_lem :
    (a b : ℕ) (input : List ℕ) (out : View)
    → input ≢ []
    → IsByte a
    → IsByte b
    → All IsByte input
    → length (groups (a ∷ b ∷ input)) ≤ out.room
    → Encodes (a ∷ b ∷ []) input out (encode_2_holdover input out (held 2 a b))
unfolding encode_2_holdover
encode_2_holdover_lem a b [] out ne ha hb hi fits = absurd (ne refl)
encode_2_holdover_lem a b (x ∷ rest) out ne ha hb hi fits =
    rw
      (le→not-ltb out.room 4 (
        omega
          (arith, length-append (quad (bits24 a b x)) (groups rest), length-quad (bits24 a b x))))
      (add_to_lem a b x 1 (a ∷ b ∷ []) rest (x ∷ rest) out (held 2 a b) refl (omega arith) ha hb
        hi.0 hi.1 fits)

encode_cons :
    (x : ℕ) (xs : List ℕ) (out : View) (n a b : ℕ)
    → IsEncoder (held n a b)
    → All IsByte (x ∷ xs)
    → length (groups (pending (held n a b) ++ (x ∷ xs))) ≤ out.room
    → Encodes (pending (held n a b)) (x ∷ xs) out (encode (x ∷ xs) out (held n a b))
unfolding encode
encode_cons x xs out zero a b v hb fits = no_holdover_lem (x ∷ xs) out (held 0 a b) hb fits
encode_cons x xs out (suc zero) a b v hb fits =
    encode_1_holdover_lem a b (x ∷ xs) out (λ e. cc) v.bytes.0 hb fits
encode_cons x xs out (suc (suc zero)) a b v hb fits =
    encode_2_holdover_lem a b (x ∷ xs) out (λ e. cc) v.bytes.0 v.bytes.1.0 hb fits
encode_cons x xs out (suc (suc (suc n))) a b v hb fits = absurd (omega (arith, v.few))

-- With room for every full group `encode` takes its whole input, writes those groups of what it
-- held and the input together, and holds the bytes over that fill no group.
pub encode-Encodes :
    (input : List ℕ) (out : View) (h : Base64Encoder)
    → IsEncoder h
    → All IsByte input
    → length (groups (pending h ++ input)) ≤ out.room
    → Encodes (pending h) input out (encode input out h)
encode-Encodes [] out h v hb fits = encode-Encodes_nil out h v
encode-Encodes (x ∷ xs) out h v hb fits = encode_cons x xs out h.count h.first h.second v hb fits
