-- ===== src/Dis/Sizes.antt =====
-- `pdu_size_calc` against the bytes that the writers of serde.hpp produce.
use libcsics.Base.{ℕ, ◌+◌, ◌*◌, ◌≡◌, refl, List, [], ◌∷◌, Option, none, some, arith, length, All}
use libcsics.Wire.Bytes.{length-be, length-raw}
use libcsics.Wire.Reads.{all_chunks, length-zeros}
use libcsics.Wire.Writes.{total, total-append}
use libcsics.Dis.Pdus.{
  DrmParameters, fixed, rotating, unknown, DeadReckoningParameters, Vector, VariableParameters,
  EntityStatePdu, TrackJam, Beam, EmitterSystem, ElectromagneticEmissionPdu,
}
use libcsics.Dis.Encode.{
  header_chunks, entity_id_chunks, entity_type_chunks, vector_chunks, world_coordinates_chunks,
  euler_angles_chunks, quat_chunks, drm_chunks, dead_reckoning_chunks, bytes_chunks,
  variable_parameters_chunks, entity_state_chunks, pdu_size_entity_state,
  fundamental_parameters_chunks, beam_data_chunks, jamming_technique_chunks, track_jam_chunks,
  track_jams_size, track_jams_chunks, beam_chunks, beams_size, emitter_system_chunks,
  emitter_systems_bits, emission_chunks, pdu_size_emission,
}

ruleset pieces = (total-append, length-be, length-raw, length-zeros)

total-drm : (p : DrmParameters) → total (drm_chunks p) ≡ 14
unfolding drm_chunks euler_angles_chunks quat_chunks
total-drm (fixed angles) = simp pieces
total-drm (rotating quat) = simp pieces
total-drm (unknown tag) = simp pieces

pub total-vector : (v : Vector) → total (vector_chunks v) ≡ 12
unfolding vector_chunks
total-vector v = simp pieces

pub total-dead_reckoning : (x : DeadReckoningParameters) → total (dead_reckoning_chunks x) ≡ 40
unfolding dead_reckoning_chunks vector_chunks
total-dead_reckoning x = simp (pieces, total-drm)

pub total-bytes : (bs : List ℕ) → total (bytes_chunks bs) ≡ length bs
unfolding bytes_chunks
total-bytes [] = refl
total-bytes (b ∷ bs) = omega (arith, length-raw 1 b, total-bytes bs)

total-variable_parameters :
    (ps : List VariableParameters)
    → All (λ p. length p.payload ≡ 15) ps
    → total (all_chunks variable_parameters_chunks ps) ≡ 16 * length ps
unfolding variable_parameters_chunks
total-variable_parameters [] h = refl
total-variable_parameters (p ∷ ps) h = omega (
  arith,
  length-raw 1 p.type,
  total-bytes p.payload,
  total-append (bytes_chunks p.payload) (all_chunks variable_parameters_chunks ps),
  total-variable_parameters ps h.1,
)

-- An EntityStatePDU takes `pdu_size_calc` bytes, whatever its dead reckoning parameters are.
pub total-entity_state :
    (x : EntityStatePdu)
    → length x.entity_marking.marking ≡ 11
    → All (λ p. length p.payload ≡ 15) x.variable_parameters
    → total (entity_state_chunks x) ≡ pdu_size_entity_state x
unfolding entity_state_chunks header_chunks entity_id_chunks entity_type_chunks vector_chunks
    world_coordinates_chunks euler_angles_chunks pdu_size_entity_state
total-entity_state x m h =
    simp
      (
        pieces,
        total-dead_reckoning,
        total-bytes,
        m,
        total-variable_parameters x.variable_parameters h,
      )
      (omega arith)

total-track_jams :
    (jams : List TrackJam) → total (all_chunks track_jam_chunks jams) ≡ 8 * length jams
unfolding track_jam_chunks entity_id_chunks
total-track_jams [] = refl
total-track_jams (j ∷ js) = simp (pieces, total-track_jams js) (omega arith)

total-beam : (x : Beam) → 8 * total (beam_chunks x) ≡ 416 + 64 * track_jams_size x.track_jams
unfolding beam_chunks fundamental_parameters_chunks beam_data_chunks jamming_technique_chunks
    track_jams_chunks
total-beam x = simp pieces (omega (arith, jams x.track_jams))
  where
    jams : (js : Option (List TrackJam)) → total (track_jams_chunks js) ≡ 8 * track_jams_size js
    jams none = refl
    jams (some js) = total-track_jams js

total-beams : (xs : List Beam) → 8 * total (all_chunks beam_chunks xs) ≡ beams_size xs
unfolding beams_size
total-beams [] = refl
total-beams (x ∷ xs) =
    omega (
      arith,
      total-append (beam_chunks x) (all_chunks beam_chunks xs),
      total-beam x,
      total-beams xs,
    )

total-emitter_system :
    (x : EmitterSystem) → 8 * total (emitter_system_chunks x) ≡ 160 + beams_size x.beams
unfolding emitter_system_chunks vector_chunks
total-emitter_system x = simp pieces (omega (arith, total-beams x.beams))

total-emitter_systems :
    (xs : List EmitterSystem)
    → 8 * total (all_chunks emitter_system_chunks xs) ≡ emitter_systems_bits xs
unfolding emitter_systems_bits
total-emitter_systems [] = refl
total-emitter_systems (x ∷ xs) = omega (
  arith,
  total-append (emitter_system_chunks x) (all_chunks emitter_system_chunks xs),
  total-emitter_system x,
  total-emitter_systems xs,
)

-- An ElectromagneticEmissionPDU takes `pdu_size_calc` bytes.
pub total-emission :
    (x : ElectromagneticEmissionPdu) → total (emission_chunks x) ≡ pdu_size_emission x
unfolding emission_chunks header_chunks entity_id_chunks pdu_size_emission
total-emission x = simp pieces (omega (arith, total-emitter_systems x.emitter_systems))
