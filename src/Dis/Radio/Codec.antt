-- ===== src/Dis/Radio/Codec.antt =====
-- The round trip of a radio type, and what the two versions of the protocol make of it.
use libcsics.Base.{
  ℕ, ◌+◌, ◌*◌, ◌/◌, ◌%◌, ◌≤◌, ◌≡◌, ◌≢◌, refl, sym, ap, ℕ-cases, ◌∙◌, ◌⊎◌, inl, inr, List, ◌++◌,
  none, some, arith, ne→not-==,
}
use libcsics.Wire.{View, non_fatal_error}
use libcsics.Wire.Bytes.{length-raw, length-be}
use libcsics.Wire.Reads.{stream, Runs, Runs-pure, length-zeros}
use libcsics.Wire.Writes.{total, emit_fits, stream-rest}
use libcsics.Dis.Codec.{fresh}
use libcsics.Dis.Radio.{
  RadioType, nomenclature, nomenclature_version, radio_type_chunks, serialize_radio_type,
  read_radio_type, make_dis6, make_dis7,
}
use libcsics.Dis.RoundTrip.Records.{U8, U16, u8, u16, ◌⊛◌}

abbrev pub IsRadioType : RadioType → Type 0
IsRadioType r =
    U8 r.entity_kind
    × U8 r.domain
    × U16 r.country_code
    × U8 r.category
    × U8 r.subcategory
    × U8 r.specific
    × U8 r.extra

-- The version, and under the first one an empty padding byte.
abbrev pub IsOfVersion : RadioType → ℕ → Type 0
IsOfVersion r version = ((version ≡ 6) × (r.subcategory ≡ 0)) ⊎ (version ≡ 7)

dis6_again :
    (r : RadioType)
    → IsRadioType r
    → r.subcategory ≡ 0
    → make_dis6 r.entity_kind r.domain r.country_code r.category (r.specific + 256 * r.extra) ≡ r
unfolding make_dis6
dis6_again r h empty =
    let low : (r.specific + 256 * r.extra) % 256 ≡ r.specific = omega (arith, h.5) in
    let high : (r.specific + 256 * r.extra) / 256 ≡ r.extra = omega (arith, h.5) in
    rw (low, high) (ap (λ (z : ℕ). record r { subcategory = z }) (sym empty))

Runs-dis6 :
    (r : RadioType)
    → IsRadioType r
    → (rest : List ℕ)
    → Runs
        (read_radio_type 6)
        (stream (radio_type_chunks r 6) rest)
        (make_dis6 r.entity_kind r.domain r.country_code r.category (r.specific + 256 * r.extra))
        rest
unfolding read_radio_type radio_type_chunks nomenclature nomenclature_version
Runs-dis6 r h rest = record {
  gives = (Runs-pure _ _ ⊛ u8 h.0 ⊛ u8 h.1 ⊛ u16 h.2 ⊛ u8 h.3 ⊛ u16 (omega (arith, h.5))).gives;
}

Runs-dis7 :
    (r : RadioType)
    → IsRadioType r
    → (rest : List ℕ) → Runs (read_radio_type 7) (stream (radio_type_chunks r 7) rest) r rest
unfolding read_radio_type radio_type_chunks make_dis7
Runs-dis7 r h rest = record {
  gives = (Runs-pure _ _ ⊛ u8 h.0 ⊛ u8 h.1 ⊛ u16 h.2 ⊛ u8 h.3 ⊛ u8 h.4 ⊛ u8 h.5 ⊛ u8 h.6).gives;
}

read_radio_type-stream :
    (r : RadioType) (version : ℕ) (rest : List ℕ)
    → IsRadioType r
    → IsOfVersion r version
    → read_radio_type version (stream (radio_type_chunks r version) rest) ≡ (some r, rest)
read_radio_type-stream r version rest h (inl (v, empty)) =
    ap (λ (k : ℕ). read_radio_type k (stream (radio_type_chunks r k) rest)) v
    ∙ (Runs-dis6 r h rest).gives
    ∙ ap (λ (x : RadioType). (some x, rest)) (dis6_again r h empty)
read_radio_type-stream r version rest h (inr v) =
    ap (λ (k : ℕ). read_radio_type k (stream (radio_type_chunks r k) rest)) v
    ∙ (Runs-dis7 r h rest).gives

-- The first version of the protocol takes seven bytes for a radio type; the second, and the padding
-- that stands for any other version, take eight.
pub total-radio_type_chunks :
    (r : RadioType) (version : ℕ)
    → ((version ≡ 6) × (total (radio_type_chunks r version) ≡ 7))
      ⊎ ((version ≢ 6) × (total (radio_type_chunks r version) ≡ 8))
unfolding radio_type_chunks
total-radio_type_chunks r version = elim (ℕ-cases version 6) [
  | inl six ↦ inl (
    six,
    rw six (
        omega (
          arith,
          length-raw 1 r.entity_kind,
          length-raw 1 r.domain,
          length-be 2 r.country_code,
          length-raw 1 (nomenclature_version r),
          length-be 2 (nomenclature r),
        )),
  )
  | inr other ↦ elim (ℕ-cases version 7) [
    | inl seven ↦ inr (
      other,
      rw seven (
          omega (
            arith,
            length-raw 1 r.entity_kind,
            length-raw 1 r.domain,
            length-be 2 r.country_code,
            length-raw 1 r.category,
            length-raw 1 r.subcategory,
            length-raw 1 r.specific,
            length-raw 1 r.extra,
          )),
    )
    | inr unknown_version ↦ inr (
      other,
      rw (ne→not-== version 6 other, ne→not-== version 7 unknown_version)
          (omega (arith, length-zeros 8)),
    )
  ]
]

-- A radio type whose fields fit their types, written in one of the two versions of the protocol to a
-- buffer with eight bytes of room, is read back unchanged in the same version, and exactly its bytes
-- are consumed. Under the first version the byte that it does not use must be zero.
pub read-serialize_radio_type :
    (r : RadioType) (version room : ℕ) (rest : List ℕ)
    → IsRadioType r
    → IsOfVersion r version
    → 8 ≤ room
    → read_radio_type version ((serialize_radio_type (fresh room) r version).0.written ++ rest)
      ≡ (some r, rest)
unfolding serialize_radio_type
read-serialize_radio_type r version room rest h known fits =
    ap (λ bs. read_radio_type version (bs ++ rest))
      (ap (λ (v : View). v.written)
        (emit_fits (fresh room) (radio_type_chunks r version) (few fits)))
    ∙ ap (read_radio_type version) (stream-rest (radio_type_chunks r version) rest)
    ∙ read_radio_type-stream r version rest h known
  where
    few : 8 ≤ room → total (radio_type_chunks r version) ≤ room
    few fits = elim (total-radio_type_chunks r version) [
      | inl (v, e) ↦ omega arith
      | inr (v, e) ↦ omega arith
    ]

-- With any other version the writer reports an error that is not fatal, and the reader gives an
-- error whatever the bytes are and takes none of them.
pub radio_type_unknown_version :
    (r : RadioType) (version : ℕ) (out : View) (bytes : List ℕ)
    → version ≢ 6
    → version ≢ 7
    → ((serialize_radio_type out r version).1 ≡ non_fatal_error)
      × (read_radio_type version bytes ≡ (none, bytes))
unfolding serialize_radio_type read_radio_type
radio_type_unknown_version r version out bytes six seven =
    rw (ne→not-== version 6 six, ne→not-== version 7 seven) (refl, refl)
