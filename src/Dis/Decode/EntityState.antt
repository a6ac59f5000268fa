-- ===== src/Dis/Decode/EntityState.antt =====
-- The reader of an EntityStatePDU in serde.hpp. A check in the middle of the reads is a `>>=`.
use libcsics.Base.{ℕ, List, ◌==◌, if◌then◌else◌}
use libcsics.Wire.{Reader, read, ignore, ◌<*>◌, pure, ◌>>=◌, read_many}
use libcsics.Dis.Pdus.{
  PduHeader, EntityId, EntityType, Vector, WorldCoordinates, EulerAngles, DrmParameters, fixed,
  rotating, unknown, DeadReckoningParameters, EntityMarking, VariableParameters, EntityStatePdu,
}
use libcsics.Dis.Decode.Records.{
  read_entity_id, read_entity_type, read_euler_angles, read_header, read_quat, read_vector,
  read_world_coordinates,
}

-- The union, by its tag. The last case skips a `uint64_t`.
unfoldable pub read_drm : ℕ → Reader DrmParameters
read_drm tag =
    if tag == 1
    then (ignore (read 2) >>= λ _. read_euler_angles >>= λ angles. pure (fixed angles))
    else (if tag == 2
        then (read_quat >>= λ quat. pure (rotating quat))
        else (ignore (read 8) >>= λ _. pure (unknown tag)))

pub make_dead_reckoning : ℕ → DrmParameters → Vector → Vector → DeadReckoningParameters
make_dead_reckoning a p linear angular = record {
  algorithm = a;
  params = p;
  linear_acceleration = linear;
  angular_velocity = angular;
}

make_tags : ℕ → ℕ → ℕ × ℕ
make_tags a t = (a, t)

unfoldable pub read_dead_reckoning : Reader DeadReckoningParameters
unfolding make_dead_reckoning make_tags
read_dead_reckoning = pure make_tags <*> read 1 <*> read 1 >>= λ tags. read_drm tags.1 >>= λ params.
    pure (make_dead_reckoning tags.0 params) <*> read_vector <*> read_vector

make_variable_parameters : ℕ → List ℕ → VariableParameters
make_variable_parameters t bytes = record { type = t; payload = bytes }

unfoldable pub read_variable_parameters : Reader VariableParameters
unfolding make_variable_parameters
read_variable_parameters = pure make_variable_parameters <*> read 1 <*> read_many 15 (read 1)

-- The fields up to the dead reckoning parameters, with the count of variable parameters in front.
make_entity_state :
    PduHeader
    → EntityId
    → ℕ
    → ℕ
    → EntityType
    → EntityType
    → Vector
    → WorldCoordinates
    → EulerAngles
    → ℕ
    → DeadReckoningParameters
    → ℕ × (EntityMarking → ℕ → List VariableParameters → EntityStatePdu)
make_entity_state h id force count t alt velocity location orientation appearance dr = (
  count,
  λ mark caps params. record {
    header = h;
    entity_id = id;
    force_id = force;
    entity_type = t;
    alternative_entity_type = alt;
    entity_linear_velocity = velocity;
    entity_location = location;
    entity_orientation = orientation;
    entity_appearance = appearance;
    dr_parameters = dr;
    entity_marking = mark;
    capabilities = caps;
    variable_parameters = params;
  },
)

make_marking : ℕ → List ℕ → EntityMarking
make_marking c m = record { character_set = c; marking = m }

unfoldable pub read_marking : Reader EntityMarking
unfolding make_marking
read_marking = read 1 >>= λ c. read_many 11 (read 1) >>= λ m. pure (make_marking c m)

-- The source tests the first block and the capabilities last of all. The model fails where each of
-- them ends, which gives an error for the same inputs and leaves the cursor further back. A variable
-- parameter's type byte, which the source takes out of the result without a test, is tested.
unfoldable pub read_entity_state : Reader EntityStatePdu
unfolding make_entity_state
read_entity_state =
    pure make_entity_state
      <*> read_header
      <*> read_entity_id
      <*> read 1
      <*> read 1
      <*> read_entity_type
      <*> read_entity_type
      <*> read_vector
      <*> read_world_coordinates
      <*> read_euler_angles
      <*> read 4
      <*> read_dead_reckoning
    >>= λ first. read_marking >>= λ mark. read 4 >>= λ caps.
        read_many first.0 read_variable_parameters >>= λ params. pure (first.1 mark caps params)
