-- ===== src/Dis/RoundTrip/Records.antt =====
-- Each fixed-size record of serde.hpp is read back from its bytes. `Is…` says that every field fits
-- the integer type that the source declares for it.
use libcsics.Base.{ℕ, ◌^◌, ◌<◌, List, ◌++◌, arith}
use libcsics.Wire.{Reader, raw, be, read, read_be, ◌<*>◌}
use libcsics.Wire.Reads.{
  stream, Runs, Runs-ap, Runs-skip, Runs-pure, Runs-read, Runs-read_be, Runs-ignore-read,
  Runs-ignore-skip,
}
use libcsics.Dis.Pdus.{
  PduHeader, EntityId, EntityType, Vector, WorldCoordinates, EulerAngles, DisQuat,
  EeFundamentalParameterData, BeamData, JammingTechnique, TrackJam, ModulationType,
  BeamAntennaPattern,
}
use libcsics.Dis.Encode.{
  header_chunks, entity_id_chunks, entity_type_chunks, vector_chunks, world_coordinates_chunks,
  euler_angles_chunks, quat_chunks, fundamental_parameters_chunks, beam_data_chunks,
  jamming_technique_chunks, track_jam_chunks, modulation_type_chunks, antenna_pattern_chunks,
}
use libcsics.Dis.Decode.{
  read_header, read_entity_id, read_entity_type, read_vector, read_world_coordinates,
  read_euler_angles, read_quat, read_fundamental_parameters, read_beam_data, read_jamming_technique,
  read_track_jam, read_modulation_type, read_antenna_pattern,
}

abbrev pub U8 : ℕ → Type 0
U8 v = v < 256 ^ 1

abbrev pub U16 : ℕ → Type 0
U16 v = v < 256 ^ 2

abbrev pub U32 : ℕ → Type 0
U32 v = v < 256 ^ 4

abbrev pub U64 : ℕ → Type 0
U64 v = v < 256 ^ 8

pub u8 : {v : ℕ} {rest : List ℕ} → U8 v → Runs (read 1) (raw 1 v ++ rest) v rest
u8 h = Runs-read 1 _ _ h

pub U32-raw : {v : ℕ} {rest : List ℕ} → U32 v → Runs (read 4) (raw 4 v ++ rest) v rest
U32-raw h = Runs-read 4 _ _ h

pub u16 : {v : ℕ} {rest : List ℕ} → U16 v → Runs (read_be 2) (be 2 v ++ rest) v rest
u16 h = Runs-read_be 2 _ _ h

pub u32 : {v : ℕ} {rest : List ℕ} → U32 v → Runs (read_be 4) (be 4 v ++ rest) v rest
u32 h = Runs-read_be 4 _ _ h

pub u64 : {v : ℕ} {rest : List ℕ} → U64 v → Runs (read_be 8) (be 8 v ++ rest) v rest
u64 h = Runs-read_be 8 _ _ h

infixl 60 ◌⊛◌
pub ◌⊛◌ {ℓ κ} :
    {A : Type ℓ} {B : Type κ} {rf : Reader (A → B)} {ra : Reader A} {s t u : List ℕ} {f : A → B}
    {a : A}
    → Runs rf s f t
    → Runs ra t a u
    → Runs (rf <*> ra) s (f a) u
p ⊛ q = Runs-ap p q

abbrev pub IsEntityId : EntityId → Type 0
IsEntityId x = U16 x.site × U16 x.application × U16 x.id

pub Runs-entity_id :
    (x : EntityId)
    → IsEntityId x
    → (rest : List ℕ) → Runs read_entity_id (stream (entity_id_chunks x) rest) x rest
unfolding read_entity_id entity_id_chunks
Runs-entity_id x h rest = Runs-pure _ _ ⊛ u16 h.0 ⊛ u16 h.1 ⊛ u16 h.2

abbrev pub IsEntityType : EntityType → Type 0
IsEntityType x =
    U8 x.kind
    × U8 x.domain
    × U16 x.country
    × U8 x.category
    × U8 x.subcategory
    × U8 x.specific
    × U8 x.extra

pub Runs-entity_type :
    (x : EntityType)
    → IsEntityType x
    → (rest : List ℕ) → Runs read_entity_type (stream (entity_type_chunks x) rest) x rest
unfolding read_entity_type entity_type_chunks
Runs-entity_type x h rest =
    Runs-pure _ _ ⊛ u8 h.0 ⊛ u8 h.1 ⊛ u16 h.2 ⊛ u8 h.3 ⊛ u8 h.4 ⊛ u8 h.5 ⊛ u8 h.6

abbrev pub IsVector : Vector → Type 0
IsVector x = U32 x.x × U32 x.y × U32 x.z

pub Runs-vector :
    (x : Vector)
    → IsVector x
    → (rest : List ℕ) → Runs read_vector (stream (vector_chunks x) rest) x rest
unfolding read_vector vector_chunks
Runs-vector x h rest = Runs-pure _ _ ⊛ u32 h.0 ⊛ u32 h.1 ⊛ u32 h.2

abbrev pub IsWorldCoordinates : WorldCoordinates → Type 0
IsWorldCoordinates x = U64 x.x × U64 x.y × U64 x.z

pub Runs-world_coordinates :
    (x : WorldCoordinates)
    → IsWorldCoordinates x
    → (rest : List ℕ)
    → Runs read_world_coordinates (stream (world_coordinates_chunks x) rest) x rest
unfolding read_world_coordinates world_coordinates_chunks
Runs-world_coordinates x h rest = Runs-pure _ _ ⊛ u64 h.0 ⊛ u64 h.1 ⊛ u64 h.2

abbrev pub IsEulerAngles : EulerAngles → Type 0
IsEulerAngles x = U32 x.psi × U32 x.theta × U32 x.phi

pub Runs-euler_angles :
    (x : EulerAngles)
    → IsEulerAngles x
    → (rest : List ℕ) → Runs read_euler_angles (stream (euler_angles_chunks x) rest) x rest
unfolding read_euler_angles euler_angles_chunks
Runs-euler_angles x h rest = Runs-pure _ _ ⊛ u32 h.0 ⊛ u32 h.1 ⊛ u32 h.2

abbrev pub IsDisQuat : DisQuat → Type 0
IsDisQuat x = U16 x.u0 × U32 x.x × U32 x.y × U32 x.z

pub Runs-quat :
    (x : DisQuat)
    → IsDisQuat x
    → (rest : List ℕ) → Runs read_quat (stream (quat_chunks x) rest) x rest
unfolding read_quat quat_chunks
Runs-quat x h rest = Runs-pure _ _ ⊛ u16 h.0 ⊛ u32 h.1 ⊛ u32 h.2 ⊛ u32 h.3

abbrev pub IsEeFundamentalParameterData : EeFundamentalParameterData → Type 0
IsEeFundamentalParameterData x =
    U32 x.center_frequency
    × U32 x.frequency_range
    × U32 x.effective_radiated_power
    × U32 x.pulse_repetition_frequency
    × U32 x.pulse_width

pub Runs-fundamental_parameters :
    (x : EeFundamentalParameterData)
    → IsEeFundamentalParameterData x
    → (rest : List ℕ)
    → Runs read_fundamental_parameters (stream (fundamental_parameters_chunks x) rest) x rest
unfolding read_fundamental_parameters fundamental_parameters_chunks
Runs-fundamental_parameters x h rest =
    Runs-pure _ _ ⊛ u32 h.0 ⊛ u32 h.1 ⊛ u32 h.2 ⊛ u32 h.3 ⊛ u32 h.4

abbrev pub IsBeamData : BeamData → Type 0
IsBeamData x =
    U32 x.beam_azimuth_center
    × U32 x.beam_elevation_center
    × U32 x.beam_azimuth_sweep
    × U32 x.beam_elevation_sweep
    × U32 x.beam_sweep_sync

pub Runs-beam_data :
    (x : BeamData)
    → IsBeamData x
    → (rest : List ℕ) → Runs read_beam_data (stream (beam_data_chunks x) rest) x rest
unfolding read_beam_data beam_data_chunks
Runs-beam_data x h rest = Runs-pure _ _ ⊛ u32 h.0 ⊛ u32 h.1 ⊛ u32 h.2 ⊛ u32 h.3 ⊛ u32 h.4

abbrev pub IsJammingTechnique : JammingTechnique → Type 0
IsJammingTechnique x = U8 x.kind × U8 x.category × U8 x.subcategory × U8 x.specific

pub Runs-jamming_technique :
    (x : JammingTechnique)
    → IsJammingTechnique x
    → (rest : List ℕ)
    → Runs read_jamming_technique (stream (jamming_technique_chunks x) rest) x rest
unfolding read_jamming_technique jamming_technique_chunks
Runs-jamming_technique x h rest = Runs-pure _ _ ⊛ u8 h.0 ⊛ u8 h.1 ⊛ u8 h.2 ⊛ u8 h.3

abbrev pub IsModulationType : ModulationType → Type 0
IsModulationType x =
    U16 x.spread_spectrum × U16 x.major_modulation × U16 x.detail_modulation × U16 x.radio_system

-- A ModulationType whose fields fit their types is read back from the bytes that its writer
-- produces, and the bytes that follow are left.
pub Runs-modulation_type :
    (x : ModulationType)
    → IsModulationType x
    → (rest : List ℕ) → Runs read_modulation_type (stream (modulation_type_chunks x) rest) x rest
unfolding read_modulation_type modulation_type_chunks
Runs-modulation_type x h rest = Runs-pure _ _ ⊛ u16 h.0 ⊛ u16 h.1 ⊛ u16 h.2 ⊛ u16 h.3

abbrev pub IsPduHeader : PduHeader → Type 0
IsPduHeader x =
    U8 x.protocol_version
    × U8 x.exercise_id
    × U8 x.pdu_type
    × U8 x.protocol_family
    × U32 x.timestamp
    × U8 x.status

-- The length field is free: it is checked to be there, and dropped.
pub Runs-header :
    (x : PduHeader) (size : ℕ)
    → IsPduHeader x
    → (rest : List ℕ) → Runs read_header (stream (header_chunks x size) rest) x rest
unfolding read_header header_chunks
Runs-header x size h rest =
    Runs-skip
      (Runs-pure _ _ ⊛ u8 h.0 ⊛ u8 h.1 ⊛ u8 h.2 ⊛ u8 h.3 ⊛ u32 h.4 ⊛ u16 (omega arith) ⊛ u8 h.5)
      (Runs-ignore-read 1 rest)

abbrev pub IsTrackJam : TrackJam → Type 0
IsTrackJam x = IsEntityId x.track_jam_target × U8 x.emitter_number × U8 x.beam_number

pub Runs-track_jam :
    (x : TrackJam)
    → IsTrackJam x
    → (rest : List ℕ) → Runs read_track_jam (stream (track_jam_chunks x) rest) x rest
unfolding read_track_jam track_jam_chunks entity_id_chunks
Runs-track_jam x h rest = Runs-pure _ _ ⊛ Runs-entity_id x.track_jam_target h.0 _ ⊛ u8 h.1 ⊛ u8 h.2

abbrev pub IsBeamAntennaPattern : BeamAntennaPattern → Type 0
IsBeamAntennaPattern x =
    IsEulerAngles x.beam_direction
    × U32 x.azimuth_beamwidth
    × U32 x.elevation_beamwidth
    × U8 x.reference_system
    × U32 x.e_z
    × U32 x.e_x
    × U32 x.phase

-- A BeamAntennaPattern whose fields fit their types is read back from the bytes that its writer
-- produces, paddings included, and the bytes that follow are left.
pub Runs-antenna_pattern :
    (x : BeamAntennaPattern)
    → IsBeamAntennaPattern x
    → (rest : List ℕ) → Runs read_antenna_pattern (stream (antenna_pattern_chunks x) rest) x rest
unfolding read_antenna_pattern antenna_pattern_chunks euler_angles_chunks
Runs-antenna_pattern x h rest =
    Runs-skip
      (Runs-skip
          (Runs-pure _ _ ⊛ Runs-euler_angles x.beam_direction h.0 _ ⊛ u32 h.1 ⊛ u32 h.2 ⊛ u8 h.3)
          (Runs-ignore-skip 3 _)
        ⊛ u32 h.4
        ⊛ u32 h.5
        ⊛ u32 h.6)
      (Runs-ignore-skip 4 rest)
