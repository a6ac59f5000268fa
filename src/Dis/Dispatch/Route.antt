-- ===== src/Dis/Dispatch/Route.antt =====
-- Which handler a buffer is given to.
use libcsics.Base.{
  ℕ, ◌≤◌, ◌<◌, ◌≡◌, ◌≢◌, refl, ap, ◌∙◌, List, [], ◌∷◌, ◌++◌, none, some, length, get_elem?, arith,
  length-set, get_elem?_lt, get_elem?-set_same, get_elem?-set_other, lt→ltb, le→not-ltb,
}
use libcsics.Wire.Bytes.{raw_byte, to_native_byte}
use libcsics.Wire.Reads.{stream}
use libcsics.Wire.Writes.{stream-rest}
use libcsics.Dis.Pdus.{PduHeader, EntityStatePdu, ElectromagneticEmissionPdu}
use libcsics.Dis.Encode.{
  header_chunks, entity_state_chunks, emission_chunks, serialize_entity_state, serialize_emission,
  pdu_size_entity_state, pdu_size_emission,
}
use libcsics.Dis.RoundTrip.EntityState.{IsEntityState}
use libcsics.Dis.RoundTrip.Emission.{IsEmission}
use libcsics.Dis.Sizes.{total-emission}
use libcsics.Dis.Codec.{
  fresh, emitted, IsEntityState-total, read-serialize_entity_state, read-serialize_emission,
}
use libcsics.Dis.Dispatch.{
  PduKind, native_byte, handle, view_pdu_type, Handler, deserialize_then, on_pdu, call_handler,
  dispatch, entity_state, emission,
}

typed : (bv : List ℕ) (t : ℕ) → get_elem? bv 2 ≡ some t → t < 256 → view_pdu_type bv ≡ some t
unfolding view_pdu_type
typed bv t at small = ap native_byte at ∙ ap some (to_native_byte t small)

module _ {ℓ κ} {Pdu : Type ℓ} {S : Type κ} where
  -- A buffer of the type that a handler was given for goes to this handler.
  pub dispatch-on_pdu :
      (table : List (Handler S)) (kind : PduKind Pdu) (f : Pdu → S → S) (bv : List ℕ) (pdu : Pdu)
      (s : S)
      → kind.pdu_type < length table
      → length table ≤ 255
      → get_elem? bv 2 ≡ some kind.pdu_type
      → (kind.deserialize bv).0 ≡ some pdu
      → dispatch (on_pdu kind f table) bv s ≡ some (f pdu s)
  unfolding dispatch on_pdu call_handler
  dispatch-on_pdu table kind f bv pdu s in_table small at read =
      let long = get_elem?_lt bv 2 kind.pdu_type at in
      let sized = length-set table kind.pdu_type (deserialize_then kind f) in
      rw
        (
          le→not-ltb (length bv) 2 (omega arith),
          typed bv kind.pdu_type at (omega arith),
          sized,
          lt→ltb kind.pdu_type (length table) in_table,
          get_elem?-set_same table kind.pdu_type (deserialize_then kind f) in_table,
        )
        (ap (handle f s) read)

  -- A buffer of another type goes where it went before.
  pub dispatch-on_pdu_other :
      (table : List (Handler S)) (kind : PduKind Pdu) (f : Pdu → S → S) (bv : List ℕ) (t : ℕ)
      (s : S)
      → get_elem? bv 2 ≡ some t
      → t < 256
      → t ≢ kind.pdu_type
      → dispatch (on_pdu kind f table) bv s ≡ dispatch table bv s
  unfolding dispatch on_pdu call_handler
  dispatch-on_pdu_other table kind f bv t s at small other = rw (
    typed bv t at small,
    length-set table kind.pdu_type (deserialize_then kind f),
    get_elem?-set_other table kind.pdu_type t (deserialize_then kind f) other,
  )

  length-on_pdu :
      (table : List (Handler S)) (kind : PduKind Pdu) (f : Pdu → S → S)
      → length (on_pdu kind f table) ≡ length table
  unfolding on_pdu
  length-on_pdu table kind f = length-set table kind.pdu_type (deserialize_then kind f)

-- The third byte of a header.
header_type :
    (h : PduHeader) (size : ℕ) (cs : List (List ℕ)) (rest : List ℕ)
    → h.pdu_type < 256
    → get_elem? (stream (header_chunks h size ++ cs) rest) 2 ≡ some h.pdu_type
unfolding header_chunks
header_type h size cs rest small =
    rw (raw_byte h.protocol_version, raw_byte h.exercise_id, raw_byte h.pdu_type)
      (ap some (omega arith))

-- The bytes that the writers of the PDUs leave in a buffer with enough room.
third_byte_entity_state :
    (x : EntityStatePdu) (room : ℕ) (rest : List ℕ)
    → IsEntityState x
    → pdu_size_entity_state x ≤ room
    → get_elem? ((serialize_entity_state (fresh room) x).0.written ++ rest) 2
      ≡ some x.header.pdu_type
unfolding serialize_entity_state entity_state_chunks
third_byte_entity_state x room rest h fits =
    ap (λ bs. get_elem? (bs ++ rest) 2)
      (emitted room (entity_state_chunks x) (omega (arith, IsEntityState-total x h)))
    ∙ ap (λ bs. get_elem? bs 2) (stream-rest (entity_state_chunks x) rest)
    ∙ header_type x.header (pdu_size_entity_state x) _ rest h.header.2

third_byte_emission :
    (x : ElectromagneticEmissionPdu) (room : ℕ) (rest : List ℕ)
    → IsEmission x
    → pdu_size_emission x ≤ room
    → get_elem? ((serialize_emission (fresh room) x).0.written ++ rest) 2 ≡ some x.header.pdu_type
unfolding serialize_emission emission_chunks
third_byte_emission x room rest h fits =
    ap (λ bs. get_elem? (bs ++ rest) 2)
      (emitted room (emission_chunks x) (omega (arith, total-emission x)))
    ∙ ap (λ bs. get_elem? bs 2) (stream-rest (emission_chunks x) rest)
    ∙ header_type x.header (pdu_size_emission x) _ rest h.header.2

-- A dispatcher with a handler for each of the two PDUs, whatever its table of 255 held before, gives
-- an EntityStatePDU or an ElectromagneticEmissionPDU that was serialized with enough room and its own
-- type in its header, with anything behind it, to the handler of its type, unchanged.
pub dispatch-serialize {κ} :
    {S : Type κ} (table : List (Handler S)) (f : EntityStatePdu → S → S)
    (g : ElectromagneticEmissionPdu → S → S) (x : EntityStatePdu) (y : ElectromagneticEmissionPdu)
    (room : ℕ) (rest : List ℕ) (s : S)
    → length table ≡ 255
    → IsEntityState x
    → x.header.pdu_type ≡ 1
    → pdu_size_entity_state x ≤ room
    → IsEmission y
    → y.header.pdu_type ≡ 23
    → pdu_size_emission y ≤ room
    → let d = on_pdu emission g (on_pdu entity_state f table) in
      (dispatch d ((serialize_entity_state (fresh room) x).0.written ++ rest) s ≡ some (f x s))
      × (dispatch d ((serialize_emission (fresh room) y).0.written ++ rest) s ≡ some (g y s))
dispatch-serialize table f g x y room rest s sized hx tx rx hy ty ry =
    let at_x = third_byte_entity_state x room rest hx rx ∙ ap some tx in
    let at_y = third_byte_emission y room rest hy ry ∙ ap some ty in
    (
      dispatch-on_pdu_other (on_pdu entity_state f table) emission g _ 1 s at_x (omega arith)
            (omega arith)
          ∙ dispatch-on_pdu table entity_state f _ x s (omega arith) (omega arith) at_x
              (ap (λ r. r.0) (read-serialize_entity_state x room rest hx rx)),
      dispatch-on_pdu (on_pdu entity_state f table) emission g _ y s
          (omega (arith, length-on_pdu table entity_state f))
          (omega (arith, length-on_pdu table entity_state f)) at_y
          (ap (λ r. r.0) (read-serialize_emission y room rest hy ry)),
    )

-- What a dispatcher does with a buffer that it cannot use: one of fewer than two bytes is ignored, and
-- so is one of the type 255, as the table has no entry for it; one of exactly two bytes passes the
-- test of its size and is read past its end.
pub dispatch_unusable {κ} :
    {S : Type κ} (table : List (Handler S)) (b c : ℕ) (rest : List ℕ) (s : S)
    → length table ≡ 255
    → (dispatch table [] s ≡ some s)
      × (dispatch table (b ∷ []) s ≡ some s)
      × (dispatch table (b ∷ c ∷ []) s ≡ none)
      × (dispatch table (b ∷ c ∷ 255 ∷ rest) s ≡ some s)
unfolding dispatch view_pdu_type call_handler
dispatch_unusable table b c rest s sized = (
  refl,
  refl,
  refl,
  rw
      (
        le→not-ltb (length (b ∷ c ∷ 255 ∷ rest)) 2 (omega arith),
        to_native_byte 255 (omega arith),
        sized,
      )
      refl,
)
