-- ===== src/Dis/Dispatch/Tests.antt =====
-- The dispatcher at concrete PDUs: its handlers note what they were given.
use libcsics.Base.{◌≡◌, refl, List, [], ◌∷◌, ◌++◌, length, some, arith, length-replicate}
use libcsics.Dis.Pdus.{EntityStatePdu, ElectromagneticEmissionPdu}
use libcsics.Dis.Encode.{serialize_entity_state, serialize_emission}
use libcsics.Dis.Codec.{fresh}
use libcsics.Dis.Tests.{tank, tank-IsEntityState, tank_fits, radar, radar-IsEmission, radar_size}
use libcsics.Dis.Dispatch.{Handler, entity_state, emission, new_table, no_op, on_pdu, dispatch}
use libcsics.Dis.Dispatch.Route.{dispatch-serialize}

abbrev Seen : Type 0
Seen = List EntityStatePdu × List ElectromagneticEmissionPdu

abbrev note_entity : EntityStatePdu → Seen → Seen
note_entity x (xs, ys) = (x ∷ xs, ys)

abbrev note_emission : ElectromagneticEmissionPdu → Seen → Seen
note_emission y (xs, ys) = (xs, y ∷ ys)

abbrev start : List (Handler Seen)
start = new_table

start_length : length start ≡ 255
unfolding new_table
start_length = length-replicate 255 (no_op {S = Seen})

dispatch-serialize_example :
    let d = on_pdu emission note_emission (on_pdu entity_state note_entity start) in
    (dispatch d ((serialize_entity_state (fresh 200) tank).0.written ++ (9 ∷ [])) ([], [])
      ≡ some (tank ∷ [], []))
    × (dispatch d ((serialize_emission (fresh 200) radar).0.written ++ (9 ∷ [])) ([], [])
        ≡ some ([], radar ∷ []))
dispatch-serialize_example =
    dispatch-serialize start note_entity note_emission tank radar 200 (9 ∷ []) ([], []) start_length
      tank-IsEntityState refl (omega (arith, tank_fits)) radar-IsEmission refl
      (omega (arith, radar_size))
