-- ===== src/Dis/Codec.antt =====
-- What a program sees of serde.hpp: whole PDUs through a buffer, and their sizes.
use libcsics.Base.{ℕ, ◌+◌, ◌*◌, ◌≤◌, ◌≡◌, ap, ◌∙◌, List, [], ◌++◌, some, arith, length, All-imp}
use libcsics.Wire.{View, emit}
use libcsics.Wire.Reads.{stream}
use libcsics.Wire.Writes.{total, emit_fits, stream-rest, length-stream}
use libcsics.Dis.Pdus.{EntityStatePdu, ElectromagneticEmissionPdu}
use libcsics.Dis.Encode.{
  Chunks, entity_state_chunks, pdu_size_entity_state, serialize_entity_state, emission_chunks,
  pdu_size_emission, serialize_emission,
}
use libcsics.Dis.Decode.{read_entity_state, read_emission}
use libcsics.Dis.RoundTrip.EntityState.{IsVariableParameters, IsEntityState, Runs-entity_state}
use libcsics.Dis.RoundTrip.Emission.{IsEmission, Runs-emission}
use libcsics.Dis.Sizes.{total-entity_state, total-emission}

-- The view of a fresh buffer.
abbrev pub fresh : ℕ → View
fresh room = record { written = []; room = room }

pub emitted :
    (room : ℕ) (cs : Chunks) → total cs ≤ room → (emit (fresh room) cs).written ≡ stream cs []
emitted room cs h = ap (λ (v : View). v.written) (emit_fits (fresh room) cs h)

pub IsEntityState-total :
    (x : EntityStatePdu) → IsEntityState x → total (entity_state_chunks x) ≡ pdu_size_entity_state x
IsEntityState-total x h =
    total-entity_state x h.entity_marking.1
      (All-imp IsVariableParameters _ (λ p v. v.1) x.variable_parameters h.variable_parameters)

-- An EntityStatePDU whose fields fit their types, with a dead reckoning tag that is 1 or 2 and at most
-- 255 variable parameters, written to a buffer with `pdu_size_calc` bytes of room, is read back
-- unchanged, and exactly its bytes are consumed.
pub read-serialize_entity_state :
    (x : EntityStatePdu) (room : ℕ) (rest : List ℕ)
    → IsEntityState x
    → pdu_size_entity_state x ≤ room
    → read_entity_state ((serialize_entity_state (fresh room) x).0.written ++ rest) ≡ (some x, rest)
unfolding serialize_entity_state
read-serialize_entity_state x room rest h fits =
    ap (λ bs. read_entity_state (bs ++ rest))
      (emitted room (entity_state_chunks x) (omega (arith, IsEntityState-total x h)))
    ∙ ap read_entity_state (stream-rest (entity_state_chunks x) rest)
    ∙ (Runs-entity_state x h rest).gives

-- An ElectromagneticEmissionPDU whose fields fit their types, with at most 255 emitters, at most 255
-- beams in each and, in a beam that has track jams, 1 to 121 of them, written to a buffer with
-- `pdu_size_calc` bytes of room, is read back unchanged, and exactly its bytes are consumed.
pub read-serialize_emission :
    (x : ElectromagneticEmissionPdu) (room : ℕ) (rest : List ℕ)
    → IsEmission x
    → pdu_size_emission x ≤ room
    → read_emission ((serialize_emission (fresh room) x).0.written ++ rest) ≡ (some x, rest)
unfolding serialize_emission
read-serialize_emission x room rest h fits =
    ap (λ bs. read_emission (bs ++ rest))
      (emitted room (emission_chunks x) (omega (arith, total-emission x)))
    ∙ ap read_emission (stream-rest (emission_chunks x) rest)
    ∙ (Runs-emission x h rest).gives

length-emitted :
    (room : ℕ) (cs : Chunks) → total cs ≤ room → length (emit (fresh room) cs).written ≡ total cs
length-emitted room cs h = omega (arith, ap length (emitted room cs h), length-stream cs [])

-- With enough room the writer of an EntityStatePDU that fits its types, with a known tag, produces
-- exactly `pdu_size_calc` bytes, which is 144 and 16 for each variable parameter.
pub length-serialize_entity_state :
    (x : EntityStatePdu) (room : ℕ)
    → IsEntityState x
    → pdu_size_entity_state x ≤ room
    → (length (serialize_entity_state (fresh room) x).0.written ≡ pdu_size_entity_state x)
      × (pdu_size_entity_state x ≡ 144 + 16 * length x.variable_parameters)
unfolding serialize_entity_state pdu_size_entity_state
length-serialize_entity_state x room h fits =
    let e = IsEntityState-total x h in
    (length-emitted room (entity_state_chunks x) (omega (arith, e)) ∙ e, omega arith)

-- With enough room the writer of an ElectromagneticEmissionPDU produces exactly `pdu_size_calc`
-- bytes.
pub length-serialize_emission :
    (x : ElectromagneticEmissionPdu) (room : ℕ)
    → pdu_size_emission x ≤ room
    → length (serialize_emission (fresh room) x).0.written ≡ pdu_size_emission x
unfolding serialize_emission
length-serialize_emission x room fits =
    let e = total-emission x in length-emitted room (emission_chunks x) (omega (arith, e)) ∙ e
