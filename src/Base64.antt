-- ===== src/Base64.antt =====
-- src/io/encdec/Base64Encoder.cpp with include/csics/io/encdec: the streaming base64 encoder.
pub mod Standard
pub mod Chars
pub mod Encode
pub mod Stream
pub mod Limits
mod Tests
use libcsics.Base.{
  ℕ, suc, ◌+◌, ◌-◌, ◌*◌, ◌/◌, Bool, List, [], ◌∷◌, ◌++◌, ltb, ◌==◌, if◌then◌else◌, length, get_or,
  bit_and, bit_or,
}
use libcsics.Wire.{View}

-- `EncodingStatus`.
pub data EncodingStatus : Type 0 where
  ok output_buffer_full needs_input needs_flush invalid_input fatal_error : EncodingStatus

pub record EncodingResult : Type 0 where
  pub processed : ℕ
  pub output : ℕ
  pub status : EncodingStatus

-- `holdover_[3]`: the number of bytes held over, and the bytes.
pub record Base64Encoder : Type 0 where
  pub count : ℕ
  pub first : ℕ
  pub second : ℕ

abbrev pub new_encoder : Base64Encoder
new_encoder = record { count = 0; first = 0; second = 0 }

-- `base64_table`.
abbrev pub base64_table : List ℕ
base64_table =
    65 ∷ 66 ∷ 67 ∷ 68 ∷ 69 ∷ 70 ∷ 71 ∷ 72 ∷ 73 ∷ 74 ∷ 75 ∷ 76 ∷ 77 ∷ 78 ∷ 79 ∷ 80 ∷ 81 ∷ 82 ∷ 83
    ∷ 84 ∷ 85 ∷ 86 ∷ 87 ∷ 88 ∷ 89 ∷ 90 ∷ 97 ∷ 98 ∷ 99 ∷ 100 ∷ 101 ∷ 102 ∷ 103 ∷ 104 ∷ 105 ∷ 106
    ∷ 107 ∷ 108 ∷ 109 ∷ 110 ∷ 111 ∷ 112 ∷ 113 ∷ 114 ∷ 115 ∷ 116 ∷ 117 ∷ 118 ∷ 119 ∷ 120 ∷ 121 ∷ 122
    ∷ 48 ∷ 49 ∷ 50 ∷ 51 ∷ 52 ∷ 53 ∷ 54 ∷ 55 ∷ 56 ∷ 57 ∷ 43 ∷ 47 ∷ []

pub char_of : ℕ → ℕ
char_of i = get_or base64_table i 0

-- `((a & 0b11) << 4) | ((b & 0b11110000) >> 4)` and `((b & 0b1111) << 2) | ((c & 0b11000000) >> 6)`.
pub second_index : ℕ → ℕ → ℕ
second_index a b = bit_or (bit_and a 0b11 * 16) (bit_and b 0b11110000 / 16)

pub third_index : ℕ → ℕ → ℕ
third_index b c = bit_or (bit_and b 0b1111 * 4) (bit_and c 0b11000000 / 64)

pub get_4_chars : ℕ → ℕ → ℕ → List ℕ
get_4_chars a b c =
    char_of (a / 4)
    ∷ char_of (second_index a b)
    ∷ char_of (third_index b c)
    ∷ char_of (bit_and c 0b111111)
    ∷ []

-- Four characters at the cursor, and `out += 4`. It runs only where there are four bytes of room.
abbrev pub put_4 : View → List ℕ → View
put_4 out chars = record { written = out.written ++ chars; room = out.room - 4 }

abbrev pub result : ℕ → ℕ → EncodingStatus → EncodingResult
result p o s = record { processed = p; output = o; status = s }

-- The result, the view behind what was written, and the encoder.
abbrev pub Outcome : Type 0
Outcome = EncodingResult × View × Base64Encoder

-- The loop of `encode_b64_no_holdover`, after `processed` bytes in and `output` bytes out.
pub no_holdover_loop : List ℕ → View → Base64Encoder → ℕ → ℕ → Outcome
no_holdover_loop (a ∷ b ∷ c ∷ rest) out h processed output =
    let next =
      no_holdover_loop rest (put_4 out (get_4_chars a b c)) h (processed + 3) (output + 4) in
    if ltb out.room 4
    then (result (length (a ∷ b ∷ c ∷ rest)) out.room output_buffer_full, out, h)
    else next
no_holdover_loop (a ∷ b ∷ []) out h processed output =
    (result (processed + 2) output ok, out, record { count = 2; first = a; second = b })
no_holdover_loop (a ∷ []) out h processed output =
    (result (processed + 1) output ok, out, record h { count = 1; first = a })
no_holdover_loop [] out h processed output =
    (result processed output ok, out, record h { count = 0 })

pub encode_no_holdover : List ℕ → View → Base64Encoder → Outcome
encode_no_holdover input out h = no_holdover_loop input out h 0 0

-- `r.processed += n; r.output += 4`.
abbrev pub add_to : ℕ → Outcome → Outcome
add_to n (r, out, h) = (record r { processed = r.processed + n; output = r.output + 4 }, out, h)

pub encode_1_holdover : List ℕ → View → Base64Encoder → Outcome
encode_1_holdover (a ∷ b ∷ rest) out h =
    if ltb out.room 4
    then (result 0 0 output_buffer_full, out, h)
    else add_to 2 (encode_no_holdover rest (put_4 out (get_4_chars h.first a b)) h)
encode_1_holdover (a ∷ []) out h = (result 1 0 ok, out, record h { count = 2; second = a })
encode_1_holdover [] out h = (result 1 0 ok, out, record h { count = 2 })

pub encode_2_holdover : List ℕ → View → Base64Encoder → Outcome
encode_2_holdover (a ∷ rest) out h =
    if ltb out.room 4
    then (result 0 0 output_buffer_full, out, h)
    else add_to 1 (encode_no_holdover rest (put_4 out (get_4_chars h.first h.second a)) h)
encode_2_holdover [] out h = (result 0 0 needs_input, out, h)

-- `Base64Encoder::encode`.
pub encode : List ℕ → View → Base64Encoder → Outcome
encode [] out h = (result 0 0 ok, out, h)
encode (a ∷ rest) out h =
    if h.count == 0
    then encode_no_holdover (a ∷ rest) out h
    else (if h.count == 1
        then encode_1_holdover (a ∷ rest) out h
        else (if h.count == 2 then encode_2_holdover (a ∷ rest) out h else (result 0 0 ok, out, h)))

abbrev pub equals_sign : ℕ
equals_sign = 61

-- The padded group of one byte and of two.
pub pad_1 : ℕ → List ℕ
pad_1 a = char_of (a / 4) ∷ char_of (bit_and a 0b11 * 16) ∷ equals_sign ∷ equals_sign ∷ []

pub pad_2 : ℕ → ℕ → List ℕ
pad_2 a b =
    char_of (a / 4) ∷ char_of (second_index a b) ∷ char_of (bit_and b 0b1111 * 4) ∷ equals_sign ∷ []

abbrev is_full : EncodingStatus → Bool
is_full output_buffer_full = Bool.true
is_full _ = Bool.false

-- The end of `finish`: `r` with the output of the padding, and an empty holdover.
abbrev finished : EncodingResult → View → ℕ → Outcome
finished r out extra = (record r { output = r.output + extra; status = ok }, out, new_encoder)

-- `finish` after its call of `encode`.
pub finish_padding : Outcome → Outcome
finish_padding (r, out, h) =
    if is_full r.status
    then (r, out, h)
    else (if h.count == 1
        then (if ltb out.room 4
            then (record r { status = output_buffer_full }, out, h)
            else finished r (put_4 out (pad_1 h.first)) 4)
        else (if h.count == 2
            then (if ltb out.room 4
                then (record r { status = output_buffer_full }, out, h)
                else finished r (put_4 out (pad_2 h.first h.second)) 4)
            else finished r out (if h.count == 0 then 0 else 4)))

-- `Base64Encoder::finish`.
pub finish : List ℕ → View → Base64Encoder → Outcome
finish input out h = finish_padding (encode input out h)
