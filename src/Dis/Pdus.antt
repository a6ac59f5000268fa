-- ===== src/Dis/Pdus.antt =====
-- The records of PDUs.hpp. A number stands for the unsigned integer, the enum value or the bit
-- pattern of the float or double that the source declares.
use libcsics.Base.{ℕ, List, Option}

-- `DISTimestamp` is its raw number.
pub record PduHeader : Type 0 where
  pub protocol_version : ℕ
  pub exercise_id : ℕ
  pub pdu_type : ℕ
  pub timestamp : ℕ
  pub protocol_family : ℕ
  pub status : ℕ

-- `ID`, with the two fields of its `SimulationAddress`: also `EntityID`, `ObjectID` and `EventID`.
pub record EntityId : Type 0 where
  pub site : ℕ
  pub application : ℕ
  pub id : ℕ

pub record EntityType : Type 0 where
  pub kind : ℕ
  pub domain : ℕ
  pub country : ℕ
  pub category : ℕ
  pub subcategory : ℕ
  pub specific : ℕ
  pub extra : ℕ

pub record Vector : Type 0 where
  pub x : ℕ
  pub y : ℕ
  pub z : ℕ

pub record WorldCoordinates : Type 0 where
  pub x : ℕ
  pub y : ℕ
  pub z : ℕ

pub record EulerAngles : Type 0 where
  pub psi : ℕ
  pub theta : ℕ
  pub phi : ℕ

pub record DisQuat : Type 0 where
  pub u0 : ℕ
  pub x : ℕ
  pub y : ℕ
  pub z : ℕ

-- The union of `DeadReckoningParameters` with its tag `params_type`: 1, 2, or any other number.
pub data DrmParameters : Type 0 where
  fixed : EulerAngles → DrmParameters
  rotating : DisQuat → DrmParameters
  unknown : ℕ → DrmParameters

abbrev pub params_type : DrmParameters → ℕ
params_type (fixed local_angles) = 1
params_type (rotating quat) = 2
params_type (unknown tag) = tag

pub record DeadReckoningParameters : Type 0 where
  pub algorithm : ℕ
  pub params : DrmParameters
  pub linear_acceleration : Vector
  pub angular_velocity : Vector

pub record EntityMarking : Type 0 where
  pub character_set : ℕ
  pub marking : List ℕ

-- `data[15]` is the list `payload`.
pub record VariableParameters : Type 0 where
  pub type : ℕ
  pub payload : List ℕ

pub record EntityStatePdu : Type 0 where
  pub header : PduHeader
  pub entity_id : EntityId
  pub force_id : ℕ
  pub entity_type : EntityType
  pub alternative_entity_type : EntityType
  pub entity_linear_velocity : Vector
  pub entity_location : WorldCoordinates
  pub entity_orientation : EulerAngles
  pub entity_appearance : ℕ
  pub dr_parameters : DeadReckoningParameters
  pub entity_marking : EntityMarking
  pub capabilities : ℕ
  pub variable_parameters : List VariableParameters

pub record EeFundamentalParameterData : Type 0 where
  pub center_frequency : ℕ
  pub frequency_range : ℕ
  pub effective_radiated_power : ℕ
  pub pulse_repetition_frequency : ℕ
  pub pulse_width : ℕ

pub record BeamData : Type 0 where
  pub beam_azimuth_center : ℕ
  pub beam_elevation_center : ℕ
  pub beam_azimuth_sweep : ℕ
  pub beam_elevation_sweep : ℕ
  pub beam_sweep_sync : ℕ

pub record JammingTechnique : Type 0 where
  pub kind : ℕ
  pub category : ℕ
  pub subcategory : ℕ
  pub specific : ℕ

pub record TrackJam : Type 0 where
  pub track_jam_target : EntityId
  pub emitter_number : ℕ
  pub beam_number : ℕ

pub record Beam : Type 0 where
  pub beam_parameter_index : ℕ
  pub beam_number : ℕ
  pub number_of_targets : ℕ
  pub beam_function : ℕ
  pub high_density_track_jam : ℕ
  pub beam_status : ℕ
  pub jamming_technique : JammingTechnique
  pub fundamental_parameters : EeFundamentalParameterData
  pub beam_data : BeamData
  pub track_jams : Option (List TrackJam)

pub record EmitterSystem : Type 0 where
  pub emitter_name : ℕ
  pub function : ℕ
  pub emitter_number : ℕ
  pub emitter_location : Vector
  pub beams : List Beam

pub record ElectromagneticEmissionPdu : Type 0 where
  pub header : PduHeader
  pub emitter_id : EntityId
  pub event_id : EntityId
  pub state_update_indicator : ℕ
  pub emitter_systems : List EmitterSystem

pub record ModulationType : Type 0 where
  pub spread_spectrum : ℕ
  pub major_modulation : ℕ
  pub detail_modulation : ℕ
  pub radio_system : ℕ

pub record BeamAntennaPattern : Type 0 where
  pub beam_direction : EulerAngles
  pub azimuth_beamwidth : ℕ
  pub elevation_beamwidth : ℕ
  pub reference_system : ℕ
  pub e_z : ℕ
  pub e_x : ℕ
  pub phase : ℕ
