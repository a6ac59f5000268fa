-- ===== src/Dis/Tests.antt =====
-- The theorems on serde.hpp at concrete PDUs.
use libcsics.Base.{
  ℕ, ◌+◌, ◌≤◌, ◌≡◌, refl, List, [], ◌∷◌, ◌++◌, some, arith, length, replicate, length-replicate,
}
use libcsics.Wire.Reads.{stream, all_chunks}
use libcsics.Dis.Pdus.{
  PduHeader, EntityId, EntityType, Vector, EulerAngles, DeadReckoningParameters, fixed, unknown,
  VariableParameters, EntityStatePdu, EeFundamentalParameterData, BeamData, JammingTechnique,
  TrackJam, Beam, EmitterSystem, ElectromagneticEmissionPdu, ModulationType, BeamAntennaPattern,
}
use libcsics.Dis.Encode.{
  serialize_entity_state, serialize_emission, pdu_size_entity_state, pdu_size_emission,
  dead_reckoning_chunks, emitter_systems_bits, beams_size, beam_chunks, track_jam_chunks,
}
use libcsics.Dis.Decode.{read_entity_state, read_emission, read_beam, read_dead_reckoning}
use libcsics.Dis.RoundTrip.EntityState.{IsEntityState}
use libcsics.Dis.RoundTrip.Emission.{IsBeam, IsEmitterSystem, IsEmission}
use libcsics.Dis.Codec.{fresh, read-serialize_entity_state, read-serialize_emission}
use libcsics.Dis.RoundTrip.TrackJams.{with_more, read_beam-beam_chunks}
use libcsics.Dis.Radio.{RadioType, serialize_radio_type, read_radio_type}
use libcsics.Dis.Radio.Codec.{read-serialize_radio_type}
use libcsics.Base.{inl}
use libcsics.Dis.DeadReckoning.{read_dead_reckoning_unknown}

abbrev id_1 : EntityId
id_1 = record { site = 1; application = 2; id = 300 }

abbrev header_1 : PduHeader
header_1 = record {
  protocol_version = 7;
  exercise_id = 1;
  pdu_type = 1;
  timestamp = 70000;
  protocol_family = 1;
  status = 0;
}

abbrev type_1 : EntityType
type_1 = record {
  kind = 1;
  domain = 2;
  country = 225;
  category = 1;
  subcategory = 3;
  specific = 0;
  extra = 0;
}

abbrev vector_1 : Vector
vector_1 = record { x = 1065353216; y = 0; z = 3212836864 }

abbrev angles_1 : EulerAngles
angles_1 = record { psi = 1065353216; theta = 0; phi = 0 }

abbrev dr_1 : DeadReckoningParameters
dr_1 = record {
  algorithm = 2;
  params = fixed angles_1;
  linear_acceleration = vector_1;
  angular_velocity = vector_1;
}

abbrev part_1 : VariableParameters
part_1 = record { type = 4; payload = replicate 15 9 }

abbrev pub tank : EntityStatePdu
tank = record {
  header = header_1;
  entity_id = id_1;
  force_id = 1;
  entity_type = type_1;
  alternative_entity_type = type_1;
  entity_linear_velocity = vector_1;
  entity_location = record { x = 4602678819172646912; y = 0; z = 1 };
  entity_orientation = angles_1;
  entity_appearance = 255;
  dr_parameters = dr_1;
  entity_marking = record { character_set = 1; marking = replicate 11 65 };
  capabilities = 1;
  variable_parameters = part_1 ∷ [];
}

pub tank-IsEntityState : IsEntityState tank
tank-IsEntityState = record {
  header = ground arith;
  entity_id = ground arith;
  force_id = omega arith;
  entity_type = ground arith;
  alternative_entity_type = ground arith;
  entity_linear_velocity = ground arith;
  entity_location = ground arith;
  entity_orientation = ground arith;
  entity_appearance = omega arith;
  dr_parameters = ground arith;
  entity_marking = ground arith;
  capabilities = omega arith;
  count = omega arith;
  variable_parameters = ground arith;
}

pub tank_fits : pdu_size_entity_state tank ≤ 160
unfolding pdu_size_entity_state
tank_fits = omega arith

read-serialize_entity_state_example :
    read_entity_state ((serialize_entity_state (fresh 160) tank).0.written ++ (7 ∷ []))
    ≡ (some tank, 7 ∷ [])
read-serialize_entity_state_example =
    read-serialize_entity_state tank 160 (7 ∷ []) tank-IsEntityState tank_fits

abbrev technique_1 : JammingTechnique
technique_1 = record { kind = 1; category = 2; subcategory = 3; specific = 4 }

abbrev fundamental_1 : EeFundamentalParameterData
fundamental_1 = record {
  center_frequency = 1325400064;
  frequency_range = 0;
  effective_radiated_power = 1120403456;
  pulse_repetition_frequency = 1148846080;
  pulse_width = 1065353216;
}

abbrev beam_data_1 : BeamData
beam_data_1 = record {
  beam_azimuth_center = 0;
  beam_elevation_center = 1065353216;
  beam_azimuth_sweep = 0;
  beam_elevation_sweep = 0;
  beam_sweep_sync = 1065353216;
}

abbrev jam_1 : TrackJam
jam_1 = record { track_jam_target = id_1; emitter_number = 1; beam_number = 2 }

abbrev beam_1 : Beam
beam_1 = record {
  beam_parameter_index = 515;
  beam_number = 1;
  number_of_targets = 2;
  beam_function = 3;
  high_density_track_jam = 0;
  beam_status = 1;
  jamming_technique = technique_1;
  fundamental_parameters = fundamental_1;
  beam_data = beam_data_1;
  track_jams = some (jam_1 ∷ jam_1 ∷ []);
}

abbrev emitter_1 : EmitterSystem
emitter_1 = record {
  emitter_name = 1025;
  function = 2;
  emitter_number = 1;
  emitter_location = vector_1;
  beams = beam_1 ∷ [];
}

abbrev pub radar : ElectromagneticEmissionPdu
radar = record {
  header = record header_1 { pdu_type = 23 };
  emitter_id = id_1;
  event_id = id_1;
  state_update_indicator = 1;
  emitter_systems = emitter_1 ∷ [];
}

beam_1-IsBeam : IsBeam beam_1
beam_1-IsBeam = record {
  beam_parameter_index = omega arith;
  beam_number = omega arith;
  number_of_targets = omega arith;
  beam_function = omega arith;
  high_density_track_jam = omega arith;
  beam_status = omega arith;
  jamming_technique = ground arith;
  fundamental_parameters = ground arith;
  beam_data = ground arith;
  track_jams = ground arith;
}

emitter_1-IsEmitterSystem : IsEmitterSystem emitter_1
emitter_1-IsEmitterSystem = record {
  emitter_name = omega arith;
  function = omega arith;
  emitter_number = omega arith;
  emitter_location = ground arith;
  count = omega arith;
  beams = (beam_1-IsBeam, tt);
}

pub radar-IsEmission : IsEmission radar
radar-IsEmission = record {
  header = ground arith;
  emitter_id = ground arith;
  event_id = ground arith;
  state_update_indicator = omega arith;
  count = omega arith;
  emitter_systems = (emitter_1-IsEmitterSystem, tt);
}

pub radar_size : pdu_size_emission radar ≡ 116
unfolding pdu_size_emission emitter_systems_bits beams_size
radar_size = refl

read-serialize_emission_example :
    read_emission ((serialize_emission (fresh 200) radar).0.written ++ (1 ∷ 2 ∷ []))
    ≡ (some radar, 1 ∷ 2 ∷ [])
read-serialize_emission_example =
    read-serialize_emission radar 200 (1 ∷ 2 ∷ []) radar-IsEmission (omega (arith, radar_size))

-- The two track jams of the beam, and 128 more.
read_beam-beam_chunks_example :
    let longer = record beam_1 { track_jams = with_more beam_1.track_jams (replicate 128 jam_1) } in
    read_beam (stream (beam_chunks longer) [])
    ≡ (some beam_1, stream (all_chunks track_jam_chunks (replicate 128 jam_1)) [])
read_beam-beam_chunks_example =
    read_beam-beam_chunks beam_1 (replicate 128 jam_1) 1 [] beam_1-IsBeam
      (omega (arith, length-replicate 128 jam_1))

abbrev modulation_1 : ModulationType
modulation_1 = record {
  spread_spectrum = 1;
  major_modulation = 2;
  detail_modulation = 3;
  radio_system = 999;
}

abbrev pattern_1 : BeamAntennaPattern
pattern_1 = record {
  beam_direction = angles_1;
  azimuth_beamwidth = 1065353216;
  elevation_beamwidth = 7;
  reference_system = 1;
  e_z = 0;
  e_x = 0;
  phase = 3212836864;
}

abbrev behind : List ℕ
behind = 8 ∷ []

abbrev radio_1 : RadioType
radio_1 = record {
  entity_kind = 7;
  domain = 1;
  country_code = 225;
  category = 2;
  subcategory = 0;
  specific = 4;
  extra = 9;
}

-- The written bytes, with a tag that the writer only pads for.
abbrev untagged : List ℕ
untagged = stream (dead_reckoning_chunks (record dr_1 { params = unknown 9 })) behind

read_dead_reckoning_unknown_example :
    (y : DeadReckoningParameters) × (left : List ℕ) × (read_dead_reckoning untagged
      ≡ (some y, left))
    × (length untagged ≡ length behind + 40)
    × (length left ≡ length behind + 6)
read_dead_reckoning_unknown_example =
    read_dead_reckoning_unknown dr_1 9 behind (omega arith) (omega arith) (λ e. omega arith)
      (λ e. omega arith)

read-serialize_radio_type_example :
    read_radio_type 6 ((serialize_radio_type (fresh 8) radio_1 6).0.written ++ behind)
    ≡ (some radio_1, behind)
read-serialize_radio_type_example =
    read-serialize_radio_type radio_1 6 8 behind (ground arith) (inl (refl, refl)) (omega arith)
