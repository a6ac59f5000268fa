-- ===== src/Dis/Decode/Records.antt =====
-- The readers of the records of fixed size in serde.hpp: `deserialize_direct` of each. A block of
-- reads before a check of all of them is a row of `<*>`.
use libcsics.Base.{ℕ}
use libcsics.Wire.{Reader, read, read_be, skip, ignore, ◌<*>◌, ◌<*◌, pure}
use libcsics.Dis.Pdus.{
  PduHeader, EntityId, EntityType, Vector, WorldCoordinates, EulerAngles, DisQuat,
  EeFundamentalParameterData, BeamData, JammingTechnique, TrackJam, ModulationType,
  BeamAntennaPattern,
}

-- The length field is read and checked, but it is no part of the header.
make_header : ℕ → ℕ → ℕ → ℕ → ℕ → ℕ → ℕ → PduHeader
make_header version exercise type family time length st = record {
  protocol_version = version;
  exercise_id = exercise;
  pdu_type = type;
  timestamp = time;
  protocol_family = family;
  status = st;
}

unfoldable pub read_header : Reader PduHeader
unfolding make_header
read_header =
    pure make_header
    <*> read 1
    <*> read 1
    <*> read 1
    <*> read 1
    <*> read_be 4
    <*> read_be 2
    <*> read 1
    <* ignore (read 1)

make_entity_id : ℕ → ℕ → ℕ → EntityId
make_entity_id s a i = record { site = s; application = a; id = i }

unfoldable pub read_entity_id : Reader EntityId
unfolding make_entity_id
read_entity_id = pure make_entity_id <*> read_be 2 <*> read_be 2 <*> read_be 2

make_entity_type : ℕ → ℕ → ℕ → ℕ → ℕ → ℕ → ℕ → EntityType
make_entity_type k d c cat sub sp ex = record {
  kind = k;
  domain = d;
  country = c;
  category = cat;
  subcategory = sub;
  specific = sp;
  extra = ex;
}

unfoldable pub read_entity_type : Reader EntityType
unfolding make_entity_type
read_entity_type =
    pure make_entity_type
    <*> read 1
    <*> read 1
    <*> read_be 2
    <*> read 1
    <*> read 1
    <*> read 1
    <*> read 1

make_vector : ℕ → ℕ → ℕ → Vector
make_vector a b c = record { x = a; y = b; z = c }

unfoldable pub read_vector : Reader Vector
unfolding make_vector
read_vector = pure make_vector <*> read_be 4 <*> read_be 4 <*> read_be 4

make_world_coordinates : ℕ → ℕ → ℕ → WorldCoordinates
make_world_coordinates a b c = record { x = a; y = b; z = c }

unfoldable pub read_world_coordinates : Reader WorldCoordinates
unfolding make_world_coordinates
read_world_coordinates = pure make_world_coordinates <*> read_be 8 <*> read_be 8 <*> read_be 8

make_euler_angles : ℕ → ℕ → ℕ → EulerAngles
make_euler_angles a b c = record { psi = a; theta = b; phi = c }

unfoldable pub read_euler_angles : Reader EulerAngles
unfolding make_euler_angles
read_euler_angles = pure make_euler_angles <*> read_be 4 <*> read_be 4 <*> read_be 4

make_quat : ℕ → ℕ → ℕ → ℕ → DisQuat
make_quat u a b c = record { u0 = u; x = a; y = b; z = c }

unfoldable pub read_quat : Reader DisQuat
unfolding make_quat
read_quat = pure make_quat <*> read_be 2 <*> read_be 4 <*> read_be 4 <*> read_be 4

make_fundamental_parameters : ℕ → ℕ → ℕ → ℕ → ℕ → EeFundamentalParameterData
make_fundamental_parameters a b c d e = record {
  center_frequency = a;
  frequency_range = b;
  effective_radiated_power = c;
  pulse_repetition_frequency = d;
  pulse_width = e;
}

unfoldable pub read_fundamental_parameters : Reader EeFundamentalParameterData
unfolding make_fundamental_parameters
read_fundamental_parameters =
    pure make_fundamental_parameters
    <*> read_be 4
    <*> read_be 4
    <*> read_be 4
    <*> read_be 4
    <*> read_be 4

make_beam_data : ℕ → ℕ → ℕ → ℕ → ℕ → BeamData
make_beam_data a b c d e = record {
  beam_azimuth_center = a;
  beam_elevation_center = b;
  beam_azimuth_sweep = c;
  beam_elevation_sweep = d;
  beam_sweep_sync = e;
}

unfoldable pub read_beam_data : Reader BeamData
unfolding make_beam_data
read_beam_data =
    pure make_beam_data <*> read_be 4 <*> read_be 4 <*> read_be 4 <*> read_be 4 <*> read_be 4

make_jamming_technique : ℕ → ℕ → ℕ → ℕ → JammingTechnique
make_jamming_technique a b c d = record { kind = a; category = b; subcategory = c; specific = d }

unfoldable pub read_jamming_technique : Reader JammingTechnique
unfolding make_jamming_technique
read_jamming_technique = pure make_jamming_technique <*> read 1 <*> read 1 <*> read 1 <*> read 1

make_track_jam : EntityId → ℕ → ℕ → TrackJam
make_track_jam t e b = record { track_jam_target = t; emitter_number = e; beam_number = b }

unfoldable pub read_track_jam : Reader TrackJam
unfolding make_track_jam
read_track_jam = pure make_track_jam <*> read_entity_id <*> read 1 <*> read 1

make_modulation_type : ℕ → ℕ → ℕ → ℕ → ModulationType
make_modulation_type a b c d = record {
  spread_spectrum = a;
  major_modulation = b;
  detail_modulation = c;
  radio_system = d;
}

unfoldable pub read_modulation_type : Reader ModulationType
unfolding make_modulation_type
read_modulation_type =
    pure make_modulation_type <*> read_be 2 <*> read_be 2 <*> read_be 2 <*> read_be 2

make_antenna_pattern : EulerAngles → ℕ → ℕ → ℕ → ℕ → ℕ → ℕ → BeamAntennaPattern
make_antenna_pattern direction azimuth elevation system z x p = record {
  beam_direction = direction;
  azimuth_beamwidth = azimuth;
  elevation_beamwidth = elevation;
  reference_system = system;
  e_z = z;
  e_x = x;
  phase = p;
}

unfoldable pub read_antenna_pattern : Reader BeamAntennaPattern
unfolding make_antenna_pattern
read_antenna_pattern =
    pure make_antenna_pattern
    <*> read_euler_angles
    <*> read_be 4
    <*> read_be 4
    <*> read 1
    <* ignore (skip 3)
    <*> read_be 4
    <*> read_be 4
    <*> read_be 4
    <* ignore (skip 4)
