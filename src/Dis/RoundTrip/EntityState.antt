-- ===== src/Dis/RoundTrip/EntityState.antt =====
-- The EntityStatePDU of serde.hpp and the records of variable size that it holds.
use libcsics.Base.{ℕ, ◌%◌, ◌≡◌, List, [], ◌∷◌, ◌++◌, arith, length, All}
use libcsics.Wire.{read, read_many, raw}
use libcsics.Wire.Reads.{
  stream, stream-append, Runs, Runs-bind, Runs-pure, Runs-ignore-read, Runs-read_many,
}
use libcsics.Dis.Pdus.{
  EntityStatePdu, DrmParameters, fixed, rotating, unknown, DeadReckoningParameters, EntityMarking,
  VariableParameters,
}
use libcsics.Dis.Encode.{
  drm_chunks, dead_reckoning_chunks, bytes_chunks, variable_parameters_chunks, entity_state_chunks,
}
use libcsics.Dis.Decode.{
  read_drm, read_dead_reckoning, read_variable_parameters, read_marking, read_entity_state,
}
use libcsics.Dis.RoundTrip.Records.{
  U8, U32, IsEntityId, IsEntityType, IsVector, IsWorldCoordinates, IsEulerAngles, IsDisQuat,
  IsPduHeader, u8, U32-raw, ◌⊛◌, Runs-header, Runs-entity_id, Runs-entity_type, Runs-vector,
  Runs-world_coordinates, Runs-euler_angles, Runs-quat,
}

-- The tag is one that the standard knows.
abbrev pub IsKnownDrm : DrmParameters → Type 0
IsKnownDrm (fixed angles) = IsEulerAngles angles
IsKnownDrm (rotating quat) = IsDisQuat quat
IsKnownDrm (unknown tag) = ⊥

abbrev pub IsDeadReckoning : DeadReckoningParameters → Type 0
IsDeadReckoning x =
    U8 x.algorithm
    × IsKnownDrm x.params
    × IsVector x.linear_acceleration
    × IsVector x.angular_velocity

pub Runs-drm :
    (p : DrmParameters)
    → IsKnownDrm p
    → (rest : List ℕ)
    → Runs (read_drm (libcsics.Dis.Pdus.params_type p)) (stream (drm_chunks p) rest) p rest
unfolding read_drm drm_chunks
Runs-drm (fixed angles) h rest =
    Runs-bind _ (Runs-ignore-read 2 _)
      (Runs-bind _ (Runs-euler_angles angles h rest) (Runs-pure _ _))
Runs-drm (rotating quat) h rest = Runs-bind _ (Runs-quat quat h rest) (Runs-pure _ _)
Runs-drm (unknown tag) h rest = absurd h

params_type-U8 : (p : DrmParameters) → IsKnownDrm p → U8 (libcsics.Dis.Pdus.params_type p)
params_type-U8 (fixed angles) h = omega arith
params_type-U8 (rotating quat) h = omega arith
params_type-U8 (unknown tag) h = absurd h

pub Runs-dead_reckoning :
    (x : DeadReckoningParameters)
    → IsDeadReckoning x
    → (rest : List ℕ) → Runs read_dead_reckoning (stream (dead_reckoning_chunks x) rest) x rest
unfolding read_dead_reckoning dead_reckoning_chunks
Runs-dead_reckoning x h rest = simp stream-append (
    Runs-bind _ (Runs-pure _ _ ⊛ u8 h.0 ⊛ u8 (params_type-U8 x.params h.1)) (
      Runs-bind _ (Runs-drm x.params h.1 _) (
        Runs-pure _ _
        ⊛ Runs-vector x.linear_acceleration h.2 _
        ⊛ Runs-vector x.angular_velocity h.3 rest)))

pub Runs-bytes :
    (bs : List ℕ)
    → All U8 bs
    → (rest : List ℕ)
    → Runs (read_many (length bs) (read 1)) (stream (bytes_chunks bs) rest) bs rest
unfolding bytes_chunks
Runs-bytes = Runs-read_many (λ b. raw 1 b ∷ []) (read 1) U8 (λ b h rest. u8 h)

abbrev pub IsVariableParameters : VariableParameters → Type 0
IsVariableParameters x = U8 x.type × (length x.payload ≡ 15) × All U8 x.payload

pub Runs-variable_parameters :
    (x : VariableParameters)
    → IsVariableParameters x
    → (rest : List ℕ)
    → Runs read_variable_parameters (stream (variable_parameters_chunks x) rest) x rest
unfolding read_variable_parameters variable_parameters_chunks
Runs-variable_parameters x h rest =
    rw (← h.1) (Runs-pure _ _ ⊛ u8 h.0 ⊛ Runs-bytes x.payload h.2 rest)

abbrev pub IsEntityMarking : EntityMarking → Type 0
IsEntityMarking x = U8 x.character_set × (length x.marking ≡ 11) × All U8 x.marking

pub Runs-marking :
    (x : EntityMarking)
    → IsEntityMarking x
    → (rest : List ℕ)
    → Runs read_marking (raw 1 x.character_set ++ stream (bytes_chunks x.marking) rest) x rest
unfolding read_marking
Runs-marking x h rest =
    rw (← h.1) (Runs-bind _ (u8 h.0) (Runs-bind _ (Runs-bytes x.marking h.2 rest) (Runs-pure _ _)))

pub record IsEntityState (x : EntityStatePdu) : Type 0 where
  pub header : IsPduHeader x.header
  pub entity_id : IsEntityId x.entity_id
  pub force_id : U8 x.force_id
  pub entity_type : IsEntityType x.entity_type
  pub alternative_entity_type : IsEntityType x.alternative_entity_type
  pub entity_linear_velocity : IsVector x.entity_linear_velocity
  pub entity_location : IsWorldCoordinates x.entity_location
  pub entity_orientation : IsEulerAngles x.entity_orientation
  pub entity_appearance : U32 x.entity_appearance
  pub dr_parameters : IsDeadReckoning x.dr_parameters
  pub entity_marking : IsEntityMarking x.entity_marking
  pub capabilities : U32 x.capabilities
  pub count : U8 (length x.variable_parameters)
  pub variable_parameters : All IsVariableParameters x.variable_parameters

pub Runs-entity_state :
    (x : EntityStatePdu)
    → IsEntityState x
    → (rest : List ℕ) → Runs read_entity_state (stream (entity_state_chunks x) rest) x rest
unfolding read_entity_state entity_state_chunks
Runs-entity_state x h rest =
    let e : length x.variable_parameters % 256 ≡ length x.variable_parameters =
      omega (arith, h.count) in
    simp (stream-append, e)
      (Runs-bind _
        (Runs-pure _ _
          ⊛ Runs-header x.header _ h.header _
          ⊛ Runs-entity_id x.entity_id h.entity_id _
          ⊛ u8 h.force_id
          ⊛ u8 h.count
          ⊛ Runs-entity_type x.entity_type h.entity_type _
          ⊛ Runs-entity_type x.alternative_entity_type h.alternative_entity_type _
          ⊛ Runs-vector x.entity_linear_velocity h.entity_linear_velocity _
          ⊛ Runs-world_coordinates x.entity_location h.entity_location _
          ⊛ Runs-euler_angles x.entity_orientation h.entity_orientation _
          ⊛ U32-raw h.entity_appearance
          ⊛ Runs-dead_reckoning x.dr_parameters h.dr_parameters _)
        (Runs-bind _ (Runs-marking x.entity_marking h.entity_marking _) (
          Runs-bind _ (U32-raw h.capabilities) (
            Runs-bind _
              (Runs-read_many variable_parameters_chunks read_variable_parameters
                IsVariableParameters Runs-variable_parameters x.variable_parameters
                h.variable_parameters rest)
              (Runs-pure _ _)))))
