-- ===== src/Dis/Decode/Emission.antt =====
-- The reader of an ElectromagneticEmissionPDU in serde.hpp and of the records that it holds.
use libcsics.Base.{ℕ, ◌-◌, ◌*◌, ◌/◌, ◌^◌, ◌%◌, List, Option, none, some, ltb, ◌==◌, if◌then◌else◌}
use libcsics.Wire.{Reader, read, read_be, skip, ignore, ◌<*>◌, ◌<*◌, pure, ◌>>=◌, read_many}
use libcsics.Dis.Pdus.{
  PduHeader, EntityId, Vector, EeFundamentalParameterData, BeamData, JammingTechnique, TrackJam,
  Beam, EmitterSystem, ElectromagneticEmissionPdu,
}
use libcsics.Dis.Decode.Records.{
  read_beam_data, read_entity_id, read_fundamental_parameters, read_header, read_jamming_technique,
  read_track_jam, read_vector,
}

-- `(*record_length * 32 - 416) / 64` in `int`, which may be negative, then as a `size_t`.
unfoldable pub track_jams_count : ℕ → ℕ
track_jams_count record_length =
    if ltb (record_length * 32) 416
    then (2 ^ 64 - (416 - record_length * 32) / 64) % 2 ^ 64
    else (record_length * 32 - 416) / 64

unfoldable pub read_track_jams : ℕ → Reader (Option (List TrackJam))
read_track_jams count =
    if count == 0 then pure none else (read_many count read_track_jam >>= λ jams. pure (some jams))

-- The record length, and the beam without its track jams.
make_beam :
    ℕ
    → ℕ
    → ℕ
    → EeFundamentalParameterData
    → BeamData
    → ℕ
    → ℕ
    → ℕ
    → ℕ
    → JammingTechnique
    → ℕ × (Option (List TrackJam) → Beam)
make_beam record_length number index fundamental bd function targets density st technique = (
  record_length,
  λ jams. record {
    beam_parameter_index = index;
    beam_number = number;
    number_of_targets = targets;
    beam_function = function;
    high_density_track_jam = density;
    beam_status = st;
    jamming_technique = technique;
    fundamental_parameters = fundamental;
    beam_data = bd;
    track_jams = jams;
  },
)

unfoldable pub read_beam : Reader Beam
unfolding make_beam
read_beam =
    pure make_beam
      <*> read 1
      <*> read 1
      <*> read_be 2
      <*> read_fundamental_parameters
      <*> read_beam_data
      <*> read 1
      <*> read 1
      <*> read 1
      <*> read 1
      <*> read_jamming_technique
    >>= λ first. read_track_jams (track_jams_count first.0) >>= λ jams. pure (first.1 jams)

make_emitter_system : ℕ → ℕ → ℕ → ℕ → ℕ → Vector → ℕ × (List Beam → EmitterSystem)
make_emitter_system record_length count name f number location = (
  count,
  λ bs. record {
    emitter_name = name;
    function = f;
    emitter_number = number;
    emitter_location = location;
    beams = bs;
  },
)

unfoldable pub read_emitter_system : Reader EmitterSystem
unfolding make_emitter_system
read_emitter_system =
    pure make_emitter_system
      <*> read 1
      <*> read 1
      <* ignore (skip 2)
      <*> read_be 2
      <*> read 1
      <*> read 1
      <*> read_vector
    >>= λ first. read_many first.0 read_beam >>= λ beams. pure (first.1 beams)

make_emission :
    PduHeader → EntityId → EntityId → ℕ → ℕ → ℕ × (List EmitterSystem → ElectromagneticEmissionPdu)
make_emission h emitter event update count = (
  count,
  λ systems. record {
    header = h;
    emitter_id = emitter;
    event_id = event;
    state_update_indicator = update;
    emitter_systems = systems;
  },
)

unfoldable pub read_emission : Reader ElectromagneticEmissionPdu
unfolding make_emission
read_emission =
    pure make_emission
      <*> read_header
      <*> read_entity_id
      <*> read_entity_id
      <*> read 1
      <*> read 1
      <* ignore (read 2)
    >>= λ first. read_many first.0 read_emitter_system >>= λ systems. pure (first.1 systems)
