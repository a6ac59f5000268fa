-- ===== src/Base64/Tests.antt =====
-- The theorems on the encoder at concrete inputs.
use libcsics.Base.{ℕ, ◌≡◌, List, [], ◌∷◌, ◌++◌, some, arith, refl}
use libcsics.Wire.{View}
use libcsics.Base64.{Base64Encoder, new_encoder, encode}
use libcsics.Base64.Standard.{base64, decode, padded, quad}
use libcsics.Base64.Encode.{pending, IsEncoder, Encodes, encode-Encodes}
use libcsics.Base64.Stream.{encode_pieces, concat, encode_pieces-base64}
use libcsics.Base64.Limits.{Full, encode-Full}

abbrev room_of : ℕ → View
room_of n = record { written = []; room = n }

-- "Man", "y" and " hands" in three pieces.
abbrev pieces_1 : List (List ℕ)
pieces_1 = (77 ∷ 97 ∷ 110 ∷ 121 ∷ []) ∷ [] ∷ (32 ∷ 104 ∷ 97 ∷ []) ∷ []

abbrev one_held : Base64Encoder
one_held = record { count = 1; first = 77; second = 0 }

one_held-IsEncoder : IsEncoder one_held
one_held-IsEncoder = record { few = omega arith; bytes = ground arith }

encode_pieces-base64_example :
    ((encode_pieces pieces_1 (room_of 16) new_encoder).written ≡ [] ++ base64 (concat pieces_1))
    × (decode (base64 (concat pieces_1)) ≡ some (concat pieces_1))
encode_pieces-base64_example =
    encode_pieces-base64 pieces_1 (room_of 16) (ground arith)
      (unfold base64 padded quad in omega arith)

encode-Encodes_example :
    Encodes
      (pending one_held)
      (97 ∷ 110 ∷ 121 ∷ [])
      (room_of 4)
      (encode (97 ∷ 110 ∷ 121 ∷ []) (room_of 4) one_held)
encode-Encodes_example =
    encode-Encodes (97 ∷ 110 ∷ 121 ∷ []) (room_of 4) one_held one_held-IsEncoder (ground arith)
      (unfold quad in omega arith)

encode-Full_example :
    Full
      (77 ∷ 97 ∷ 110 ∷ 77 ∷ 97 ∷ 110 ∷ [])
      (room_of 6)
      (encode (77 ∷ 97 ∷ 110 ∷ 77 ∷ 97 ∷ 110 ∷ []) (room_of 6) new_encoder)
encode-Full_example =
    encode-Full (77 ∷ 97 ∷ 110 ∷ 77 ∷ 97 ∷ 110 ∷ []) (room_of 6) new_encoder (ground arith) refl
      (unfold quad in omega arith)
