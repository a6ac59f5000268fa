-- ===== src/Base64/Stream.antt =====
-- However the input is cut into pieces, the encoder writes the base64 form of the whole.
use libcsics.Base.{
  ℕ, zero, suc, ◌+◌, ◌≤◌, ◌≡◌, refl, sym, ap, ◌∙◌, List, [], ◌∷◌, ◌++◌, append-nil, append_assoc,
  some, arith, length, length-append, All, All-append, le→not-ltb,
}
use libcsics.Wire.{View}
use libcsics.Base64.{Outcome, ok, Base64Encoder, new_encoder, encode, finish, finish_padding}
use libcsics.Base64.Standard.{IsByte, groups, leftover, padded, base64, decode, decode-base64}
use libcsics.Base64.Chars.{pad_1-padded, pad_2-padded}
use libcsics.Base64.Encode.{
  groups-append, leftover-append, pending, IsEncoder, Encodes, encode-Encodes, held,
}

base64-append : (xs ys : List ℕ) → base64 (xs ++ ys) ≡ groups xs ++ base64 (leftover xs ++ ys)
unfolding base64
base64-append xs ys =
    rw (groups-append xs ys, leftover-append xs ys)
      (append_assoc (groups xs) (groups (leftover xs ++ ys))
        (padded (leftover (leftover xs ++ ys))))

-- `finish` with no more input: the padded group of the held bytes, and an encoder as new.
pub record Finishes (h : Base64Encoder) (before : List ℕ) (r : Outcome) : Type 0 where
  pub status : r.0.status ≡ ok
  pub processed : r.0.processed ≡ 0
  pub output : r.0.output ≡ length (base64 (pending h))
  pub written : r.1.written ≡ before ++ base64 (pending h)
  pub reset : r.2 ≡ new_encoder

-- A whole stream: each piece in turn, then `finish` with no input; the view behind it all.
pub encode_pieces : List (List ℕ) → View → Base64Encoder → View
encode_pieces [] out h = (finish [] out h).1
encode_pieces (piece ∷ pieces) out h =
    let (r, out', h') = encode piece out h in encode_pieces pieces out' h'

abbrev pub concat : List (List ℕ) → List ℕ
concat [] = []
concat (xs ∷ xss) = xs ++ concat xss

finish-held :
    (out : View) (n a b : ℕ)
    → IsEncoder (held n a b)
    → length (base64 (pending (held n a b))) ≤ out.room
    → Finishes (held n a b) out.written (finish [] out (held n a b))
unfolding finish encode finish_padding base64 padded
finish-held out zero a b v fits = record {
  status = refl;
  processed = refl;
  output = refl;
  written = sym (append-nil out.written);
  reset = refl;
}
finish-held out (suc zero) a b v fits = rw (le→not-ltb out.room 4 (omega arith)) (record {
  status = refl;
  processed = refl;
  output = refl;
  written = ap (◌++◌ out.written) (pad_1-padded a v.bytes.0);
  reset = refl;
})
finish-held out (suc (suc zero)) a b v fits = rw (le→not-ltb out.room 4 (omega arith)) (record {
  status = refl;
  processed = refl;
  output = refl;
  written = ap (◌++◌ out.written) (pad_2-padded a b v.bytes.0 v.bytes.1.0);
  reset = refl;
})
finish-held out (suc (suc (suc n))) a b v fits = absurd (omega (arith, v.few))

-- With room for the padded group `finish` with no input succeeds, writes the base64 form of the
-- held bytes, and leaves an encoder as new.
pub finish-Finishes :
    (out : View) (h : Base64Encoder)
    → IsEncoder h
    → length (base64 (pending h)) ≤ out.room
    → Finishes h out.written (finish [] out h)
finish-Finishes out h v fits = finish-held out h.count h.first h.second v fits

All-concat : (xss : List (List ℕ)) → All (All IsByte) xss → All IsByte (concat xss)
All-concat [] h = tt
All-concat (xs ∷ xss) h = All-append IsByte xs (concat xss) h.0 (All-concat xss h.1)

pub encode_pieces_lem :
    (pieces : List (List ℕ)) (out : View) (h : Base64Encoder)
    → IsEncoder h
    → All (All IsByte) pieces
    → length (base64 (pending h ++ concat pieces)) ≤ out.room
    → (encode_pieces pieces out h).written ≡ out.written ++ base64 (pending h ++ concat pieces)
unfolding encode_pieces
encode_pieces_lem [] out h v hb fits = rw append-nil (
    (finish-Finishes out h v
      (omega (arith, ap (λ xs. length (base64 xs)) (append-nil (pending h))))).written)
encode_pieces_lem (piece ∷ pieces) out h v hb fits =
    let (r, out', h') = encode piece out h in
    encode_pieces_lem pieces out' h' one.valid hb.1 (omega (arith, one.room, sizes))
    ∙ rw (one.written, one.keeps)
        (append_assoc out.written (groups (pending h ++ piece)) _
          ∙ ap (◌++◌ out.written) (sym whole))
  where
    whole :
        base64 (pending h ++ (piece ++ concat pieces))
        ≡ groups (pending h ++ piece) ++ base64 (leftover (pending h ++ piece) ++ concat pieces)
    whole =
        ap base64 (sym (append_assoc (pending h) piece (concat pieces)))
        ∙ base64-append (pending h ++ piece) (concat pieces)

    one : Encodes (pending h) piece out (encode piece out h)
    one = encode-Encodes piece out h v hb.0 (
        omega (
          arith,
          ap length whole,
          length-append (groups (pending h ++ piece))
              (base64 (leftover (pending h ++ piece) ++ concat pieces)),
        ))

    sizes :
        length (groups (pending h ++ piece))
          + length (base64 (pending (encode piece out h).2 ++ concat pieces))
        ≡ length (base64 (pending h ++ (piece ++ concat pieces)))
    sizes = rw one.keeps (
        omega (
          arith,
          ap length whole,
          length-append (groups (pending h ++ piece))
              (base64 (leftover (pending h ++ piece) ++ concat pieces)),
        ))

-- Whatever pieces a program cuts its input into, a new encoder with enough room writes the base64
-- form of the whole input, and that decodes to the input.
pub encode_pieces-base64 :
    (pieces : List (List ℕ)) (out : View)
    → All (All IsByte) pieces
    → length (base64 (concat pieces)) ≤ out.room
    → ((encode_pieces pieces out new_encoder).written ≡ out.written ++ base64 (concat pieces))
      × (decode (base64 (concat pieces)) ≡ some (concat pieces))
encode_pieces-base64 pieces out hb fits = (
  encode_pieces_lem pieces out new_encoder (record { few = omega arith; bytes = tt }) hb fits,
  decode-base64 (concat pieces) (All-concat pieces hb),
)
