-- ===== src/Dis/RoundTrip/Emission.antt =====
-- The ElectromagneticEmissionPDU of serde.hpp, with its emitter systems, beams and track jams.
use libcsics.Base.{
  ℕ, ◌+◌, ◌*◌, ◌/◌, ◌%◌, ◌≤◌, ◌<◌, ◌≡◌, refl, List, [], ◌∷◌, Option, none, some, arith, length, All,
  ne→not-==,
}
use libcsics.Wire.Reads.{
  stream, stream-append, Runs, Runs-bind, Runs-skip, Runs-pure, Runs-ignore-read, Runs-ignore-skip,
  Runs-read_many,
}
use libcsics.Dis.Pdus.{TrackJam, Beam, EmitterSystem, ElectromagneticEmissionPdu}
use libcsics.Dis.Encode.{
  track_jam_chunks, track_jams_size, track_jams_chunks, beam_chunks, emitter_system_chunks,
  emission_chunks,
}
use libcsics.Dis.Decode.{
  read_track_jam, track_jams_count, read_track_jams, read_beam, read_emitter_system, read_emission,
}
use libcsics.Dis.RoundTrip.Records.{
  U8, U16, IsEntityId, IsVector, IsPduHeader, IsJammingTechnique, IsEeFundamentalParameterData,
  IsBeamData, IsTrackJam, u8, u16, ◌⊛◌, Runs-header, Runs-entity_id, Runs-vector, Runs-track_jam,
  Runs-fundamental_parameters, Runs-beam_data, Runs-jamming_technique,
}

-- The record length is a byte that counts 13 words for the beam and 2 for each track jam, so there
-- are at most 121; and an empty list of them is written as if it were missing.
abbrev pub IsTrackJams : Option (List TrackJam) → Type 0
IsTrackJams none = Unit
IsTrackJams (some jams) = (0 < length jams) × (length jams ≤ 121) × All IsTrackJam jams

pub track_jams_count_lem :
    (jams : Option (List TrackJam))
    → IsTrackJams jams
    → track_jams_count ((416 + 64 * track_jams_size jams) / 32 % 256) ≡ track_jams_size jams
unfolding track_jams_count
track_jams_count_lem none h = refl
track_jams_count_lem (some jams) h = ground arith

pub Runs-track_jams :
    (jams : Option (List TrackJam))
    → IsTrackJams jams
    → (rest : List ℕ)
    → Runs (read_track_jams (track_jams_size jams)) (stream (track_jams_chunks jams) rest) jams rest
unfolding read_track_jams track_jams_chunks
Runs-track_jams none h rest = Runs-pure _ _
Runs-track_jams (some []) h rest = absurd (omega arith)
Runs-track_jams (some (j ∷ js)) h rest = rw (ne→not-== (length (j ∷ js)) 0 (omega arith)) (
    Runs-bind _
      (Runs-read_many track_jam_chunks read_track_jam IsTrackJam Runs-track_jam (j ∷ js) h.2 rest)
      (Runs-pure _ _))

pub record IsBeam (x : Beam) : Type 0 where
  pub beam_parameter_index : U16 x.beam_parameter_index
  pub beam_number : U8 x.beam_number
  pub number_of_targets : U8 x.number_of_targets
  pub beam_function : U8 x.beam_function
  pub high_density_track_jam : U8 x.high_density_track_jam
  pub beam_status : U8 x.beam_status
  pub jamming_technique : IsJammingTechnique x.jamming_technique
  pub fundamental_parameters : IsEeFundamentalParameterData x.fundamental_parameters
  pub beam_data : IsBeamData x.beam_data
  pub track_jams : IsTrackJams x.track_jams

pub Runs-beam :
    (x : Beam) → IsBeam x → (rest : List ℕ) → Runs read_beam (stream (beam_chunks x) rest) x rest
unfolding read_beam beam_chunks
Runs-beam x h rest = simp stream-append (
    Runs-bind _
      (Runs-pure _ _
        ⊛ u8 (omega arith)
        ⊛ u8 h.beam_number
        ⊛ u16 h.beam_parameter_index
        ⊛ Runs-fundamental_parameters x.fundamental_parameters h.fundamental_parameters _
        ⊛ Runs-beam_data x.beam_data h.beam_data _
        ⊛ u8 h.beam_function
        ⊛ u8 h.number_of_targets
        ⊛ u8 h.high_density_track_jam
        ⊛ u8 h.beam_status
        ⊛ Runs-jamming_technique x.jamming_technique h.jamming_technique _)
      (rw (track_jams_count_lem x.track_jams h.track_jams)
        (Runs-bind _ (Runs-track_jams x.track_jams h.track_jams rest) (Runs-pure _ _))))

pub record IsEmitterSystem (x : EmitterSystem) : Type 0 where
  pub emitter_name : U16 x.emitter_name
  pub function : U8 x.function
  pub emitter_number : U8 x.emitter_number
  pub emitter_location : IsVector x.emitter_location
  pub count : U8 (length x.beams)
  pub beams : All IsBeam x.beams

pub Runs-emitter_system :
    (x : EmitterSystem)
    → IsEmitterSystem x
    → (rest : List ℕ) → Runs read_emitter_system (stream (emitter_system_chunks x) rest) x rest
unfolding read_emitter_system emitter_system_chunks
Runs-emitter_system x h rest =
    let e : length x.beams % 256 ≡ length x.beams = omega (arith, h.count) in
    simp (stream-append, e)
      (Runs-bind _
        (Runs-skip (Runs-pure _ _ ⊛ u8 (omega arith) ⊛ u8 h.count) (Runs-ignore-skip 2 _)
          ⊛ u16 h.emitter_name
          ⊛ u8 h.function
          ⊛ u8 h.emitter_number
          ⊛ Runs-vector x.emitter_location h.emitter_location _)
        (Runs-bind _ (Runs-read_many beam_chunks read_beam IsBeam Runs-beam x.beams h.beams rest)
          (Runs-pure _ _)))

pub record IsEmission (x : ElectromagneticEmissionPdu) : Type 0 where
  pub header : IsPduHeader x.header
  pub emitter_id : IsEntityId x.emitter_id
  pub event_id : IsEntityId x.event_id
  pub state_update_indicator : U8 x.state_update_indicator
  pub count : U8 (length x.emitter_systems)
  pub emitter_systems : All IsEmitterSystem x.emitter_systems

pub Runs-emission :
    (x : ElectromagneticEmissionPdu)
    → IsEmission x
    → (rest : List ℕ) → Runs read_emission (stream (emission_chunks x) rest) x rest
unfolding read_emission emission_chunks
Runs-emission x h rest =
    let e : length x.emitter_systems % 256 ≡ length x.emitter_systems = omega (arith, h.count) in
    simp (stream-append, e)
      (Runs-bind _
        (Runs-skip
          (Runs-pure _ _
            ⊛ Runs-header x.header _ h.header _
            ⊛ Runs-entity_id x.emitter_id h.emitter_id _
            ⊛ Runs-entity_id x.event_id h.event_id _
            ⊛ u8 h.state_update_indicator
            ⊛ u8 h.count)
          (Runs-ignore-read 2 _))
        (Runs-bind _
          (Runs-read_many emitter_system_chunks read_emitter_system IsEmitterSystem
            Runs-emitter_system x.emitter_systems h.emitter_systems rest)
          (Runs-pure _ _)))
