-- ===== src/Dis/Encode.antt =====
-- The writers of serde.hpp. A writer is the row of pieces that its `s.write` and `s.pad` statements
-- hand to the serializer; a nested `bv_ += serialize_wire(…)` puts its own row in place. `s.write`
-- of a `be<T>` is `be` with the size of `T`, of any other integer `raw`.
use libcsics.Base.{ℕ, ◌+◌, ◌*◌, ◌/◌, ◌%◌, ◌^◌, List, [], ◌∷◌, ◌++◌, Option, none, some, length}
use libcsics.Wire.{View, Status, ok, raw, be, zeros, emit}
use libcsics.Wire.Reads.{all_chunks}
use libcsics.Dis.Pdus.{
  PduHeader, EntityId, EntityType, Vector, WorldCoordinates, EulerAngles, DisQuat, DrmParameters,
  fixed, rotating, unknown, params_type, DeadReckoningParameters, VariableParameters,
  EntityStatePdu, EeFundamentalParameterData, BeamData, JammingTechnique, TrackJam, Beam,
  EmitterSystem, ElectromagneticEmissionPdu, ModulationType, BeamAntennaPattern,
}

abbrev pub Chunks : Type 0
Chunks = List (List ℕ)

unfoldable pub header_chunks : PduHeader → ℕ → Chunks
header_chunks pdu pdu_size =
    raw 1 pdu.protocol_version
    ∷ raw 1 pdu.exercise_id
    ∷ raw 1 pdu.pdu_type
    ∷ raw 1 pdu.protocol_family
    ∷ be 4 pdu.timestamp
    ∷ be 2 (pdu_size % 2 ^ 16)
    ∷ raw 1 pdu.status
    ∷ zeros 1
    ∷ []

unfoldable pub entity_id_chunks : EntityId → Chunks
entity_id_chunks id = be 2 id.site ∷ be 2 id.application ∷ be 2 id.id ∷ []

unfoldable pub entity_type_chunks : EntityType → Chunks
entity_type_chunks t =
    raw 1 t.kind
    ∷ raw 1 t.domain
    ∷ be 2 t.country
    ∷ raw 1 t.category
    ∷ raw 1 t.subcategory
    ∷ raw 1 t.specific
    ∷ raw 1 t.extra
    ∷ []

unfoldable pub vector_chunks : Vector → Chunks
vector_chunks v = be 4 v.x ∷ be 4 v.y ∷ be 4 v.z ∷ []

unfoldable pub world_coordinates_chunks : WorldCoordinates → Chunks
world_coordinates_chunks w = be 8 w.x ∷ be 8 w.y ∷ be 8 w.z ∷ []

unfoldable pub euler_angles_chunks : EulerAngles → Chunks
euler_angles_chunks e = be 4 e.psi ∷ be 4 e.theta ∷ be 4 e.phi ∷ []

unfoldable pub quat_chunks : DisQuat → Chunks
quat_chunks q = be 2 q.u0 ∷ be 4 q.x ∷ be 4 q.y ∷ be 4 q.z ∷ []

unfoldable pub drm_chunks : DrmParameters → Chunks
drm_chunks (fixed local_angles) = zeros 2 ∷ euler_angles_chunks local_angles
drm_chunks (rotating quat) = quat_chunks quat
drm_chunks (unknown tag) = zeros 14 ∷ []

unfoldable pub dead_reckoning_chunks : DeadReckoningParameters → Chunks
dead_reckoning_chunks dr =
    raw 1 dr.algorithm
    ∷ raw 1 (params_type dr.params)
    ∷ (drm_chunks dr.params
        ++ (vector_chunks dr.linear_acceleration ++ vector_chunks dr.angular_velocity))

-- One `s.write` for each byte.
unfoldable pub bytes_chunks : List ℕ → Chunks
bytes_chunks bs = all_chunks (λ b. raw 1 b ∷ []) bs

unfoldable pub variable_parameters_chunks : VariableParameters → Chunks
variable_parameters_chunks p = raw 1 p.type ∷ bytes_chunks p.payload

unfoldable pub pdu_size_entity_state : EntityStatePdu → ℕ
pdu_size_entity_state pdu = (1152 + 128 * length pdu.variable_parameters) / 8

unfoldable pub entity_state_chunks : EntityStatePdu → Chunks
entity_state_chunks pdu =
    header_chunks pdu.header (pdu_size_entity_state pdu)
    ++ (entity_id_chunks pdu.entity_id
        ++ (raw 1 pdu.force_id
            ∷ raw 1 (length pdu.variable_parameters % 256)
            ∷ (entity_type_chunks pdu.entity_type
                ++ (entity_type_chunks pdu.alternative_entity_type
                    ++ (vector_chunks pdu.entity_linear_velocity
                        ++ (world_coordinates_chunks pdu.entity_location
                            ++ (euler_angles_chunks pdu.entity_orientation
                                ++ (raw 4 pdu.entity_appearance
                                    ∷ (dead_reckoning_chunks pdu.dr_parameters
                                        ++ (raw 1 pdu.entity_marking.character_set
                                            ∷ (bytes_chunks pdu.entity_marking.marking
                                                ++ (raw 4 pdu.capabilities
                                                    ∷ all_chunks variable_parameters_chunks
                                                        pdu.variable_parameters))))))))))))

-- `serialize_wire` of an EntityStatePDU: the view behind it, and the status.
unfoldable pub serialize_entity_state : View → EntityStatePdu → View × Status
serialize_entity_state bv pdu = (emit bv (entity_state_chunks pdu), ok)

unfoldable pub fundamental_parameters_chunks : EeFundamentalParameterData → Chunks
fundamental_parameters_chunks p =
    be 4 p.center_frequency
    ∷ be 4 p.frequency_range
    ∷ be 4 p.effective_radiated_power
    ∷ be 4 p.pulse_repetition_frequency
    ∷ be 4 p.pulse_width
    ∷ []

unfoldable pub beam_data_chunks : BeamData → Chunks
beam_data_chunks b =
    be 4 b.beam_azimuth_center
    ∷ be 4 b.beam_elevation_center
    ∷ be 4 b.beam_azimuth_sweep
    ∷ be 4 b.beam_elevation_sweep
    ∷ be 4 b.beam_sweep_sync
    ∷ []

unfoldable pub jamming_technique_chunks : JammingTechnique → Chunks
jamming_technique_chunks j =
    raw 1 j.kind ∷ raw 1 j.category ∷ raw 1 j.subcategory ∷ raw 1 j.specific ∷ []

unfoldable pub track_jam_chunks : TrackJam → Chunks
track_jam_chunks t =
    entity_id_chunks t.track_jam_target ++ (raw 1 t.emitter_number ∷ raw 1 t.beam_number ∷ [])

-- `track_jams.has_value() ? track_jams->size() : 0`, and the loop over them.
abbrev pub track_jams_size : Option (List TrackJam) → ℕ
track_jams_size none = 0
track_jams_size (some jams) = length jams

unfoldable pub track_jams_chunks : Option (List TrackJam) → Chunks
track_jams_chunks none = []
track_jams_chunks (some jams) = all_chunks track_jam_chunks jams

unfoldable pub beam_chunks : Beam → Chunks
beam_chunks pdu =
    raw 1 ((416 + 64 * track_jams_size pdu.track_jams) / 32 % 256)
    ∷ raw 1 pdu.beam_number
    ∷ be 2 pdu.beam_parameter_index
    ∷ (fundamental_parameters_chunks pdu.fundamental_parameters
        ++ (beam_data_chunks pdu.beam_data
            ++ (raw 1 pdu.beam_function
                ∷ raw 1 pdu.number_of_targets
                ∷ raw 1 pdu.high_density_track_jam
                ∷ raw 1 pdu.beam_status
                ∷ (jamming_technique_chunks pdu.jamming_technique
                    ++ track_jams_chunks pdu.track_jams))))

-- The size of the beams in bits.
unfoldable pub beams_size : List Beam → ℕ
beams_size [] = 0
beams_size (beam ∷ beams) = 416 + 64 * track_jams_size beam.track_jams + beams_size beams

unfoldable pub emitter_system_chunks : EmitterSystem → Chunks
emitter_system_chunks pdu =
    raw 1 ((160 + beams_size pdu.beams) / 32 % 256)
    ∷ raw 1 (length pdu.beams % 256)
    ∷ zeros 2
    ∷ be 2 pdu.emitter_name
    ∷ raw 1 pdu.function
    ∷ raw 1 pdu.emitter_number
    ∷ (vector_chunks pdu.emitter_location ++ all_chunks beam_chunks pdu.beams)

unfoldable pub emitter_systems_bits : List EmitterSystem → ℕ
emitter_systems_bits [] = 0
emitter_systems_bits (e ∷ es) = 160 + beams_size e.beams + emitter_systems_bits es

unfoldable pub pdu_size_emission : ElectromagneticEmissionPdu → ℕ
unfolding emitter_systems_bits
pdu_size_emission pdu = (224 + emitter_systems_bits pdu.emitter_systems) / 8

unfoldable pub emission_chunks : ElectromagneticEmissionPdu → Chunks
emission_chunks pdu =
    header_chunks pdu.header (pdu_size_emission pdu)
    ++ (entity_id_chunks pdu.emitter_id
        ++ (entity_id_chunks pdu.event_id
            ++ (raw 1 pdu.state_update_indicator
                ∷ raw 1 (length pdu.emitter_systems % 256)
                ∷ zeros 2
                ∷ all_chunks emitter_system_chunks pdu.emitter_systems)))

-- `serialize_wire` of an ElectromagneticEmissionPDU: the view behind it, and the status.
unfoldable pub serialize_emission : View → ElectromagneticEmissionPdu → View × Status
serialize_emission bv pdu = (emit bv (emission_chunks pdu), ok)

unfoldable pub modulation_type_chunks : ModulationType → Chunks
modulation_type_chunks m =
    be 2 m.spread_spectrum
    ∷ be 2 m.major_modulation
    ∷ be 2 m.detail_modulation
    ∷ be 2 m.radio_system
    ∷ []

unfoldable pub antenna_pattern_chunks : BeamAntennaPattern → Chunks
antenna_pattern_chunks p =
    euler_angles_chunks p.beam_direction
    ++ (be 4 p.azimuth_beamwidth
        ∷ be 4 p.elevation_beamwidth
        ∷ raw 1 p.reference_system
        ∷ zeros 3
        ∷ be 4 p.e_z
        ∷ be 4 p.e_x
        ∷ be 4 p.phase
        ∷ zeros 4
        ∷ [])
