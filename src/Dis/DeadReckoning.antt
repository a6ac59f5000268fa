-- ===== src/Dis/DeadReckoning.antt =====
-- What the reader of DeadReckoningParameters does with a tag that the writer only pads for, and the
-- readers of fixed size.
use libcsics.Base.{
  ℕ, ◌+◌, ◌≡◌, ◌≢◌, List, ◌++◌, some, arith, length, drop, length-append, ne→not-==,
}
use libcsics.Wire.{read, read_be, ◌<*>◌, pure, zeros}
use libcsics.Wire.Reads.{
  stream, Runs, Runs-bind, Runs-pure, Runs-ignore-read, length-zeros, zeros-append,
}
use libcsics.Wire.Writes.{length-stream, total-append}
use libcsics.Wire.Exact.{Exact, Exact-pure, Exact-read, Exact-read_be, ◌&◌, length-drop}
use libcsics.Dis.Pdus.{DeadReckoningParameters, unknown}
use libcsics.Dis.Encode.{dead_reckoning_chunks, drm_chunks, vector_chunks}
use libcsics.Dis.Decode.{
  make_dead_reckoning, read_dead_reckoning, read_drm, read_entity_id, read_entity_type, read_vector,
  read_world_coordinates, read_euler_angles, read_quat, read_fundamental_parameters, read_beam_data,
  read_jamming_technique, read_track_jam, read_modulation_type,
}
use libcsics.Dis.RoundTrip.Records.{U8, u8, ◌⊛◌}
use libcsics.Dis.Sizes.{total-dead_reckoning, total-vector}

one : Exact (read 1) 1
one = Exact-read 1

two : Exact (read_be 2) 2
two = Exact-read_be 2

four : Exact (read_be 4) 4
four = Exact-read_be 4

eight : Exact (read_be 8) 8
eight = Exact-read_be 8

entity_id_six : Exact read_entity_id 6
unfolding read_entity_id
entity_id_six = Exact-pure _ & two & two & two

vector_twelve : Exact read_vector 12
unfolding read_vector
vector_twelve = Exact-pure _ & four & four & four

-- Each reader succeeds exactly when the bytes of its record are there, and takes those alone.
pub fixed_readers-Exact :
    Exact read_entity_id 6
    × Exact read_entity_type 8
    × Exact read_vector 12
    × Exact read_world_coordinates 24
    × Exact read_euler_angles 12
    × Exact read_quat 14
    × Exact read_fundamental_parameters 20
    × Exact read_beam_data 20
    × Exact read_jamming_technique 4
    × Exact read_track_jam 8
    × Exact read_modulation_type 8
unfolding read_entity_type read_world_coordinates read_euler_angles read_quat
    read_fundamental_parameters read_beam_data read_jamming_technique read_track_jam
    read_modulation_type
fixed_readers-Exact = (
  entity_id_six,
  Exact-pure _ & one & one & two & one & one & one & one,
  vector_twelve,
  Exact-pure _ & eight & eight & eight,
  Exact-pure _ & four & four & four,
  Exact-pure _ & two & four & four & four,
  Exact-pure _ & four & four & four & four & four,
  Exact-pure _ & four & four & four & four & four,
  Exact-pure _ & one & one & one & one,
  Exact-pure _ & entity_id_six & one & one,
  Exact-pure _ & two & two & two & two,
)

-- With an unknown tag the reader takes eight bytes of the fourteen that the writer padded.
drm_unknown :
    (tag : ℕ) (bs : List ℕ)
    → tag ≢ 1
    → tag ≢ 2
    → Runs (read_drm tag) (zeros 14 ++ bs) (unknown tag) (zeros 6 ++ bs)
unfolding read_drm
drm_unknown tag bs h k =
    rw (ne→not-== tag 1 h, ne→not-== tag 2 k, zeros-append 8 6 bs)
      (Runs-bind _ (Runs-ignore-read 8 _) (Runs-pure _ _))

-- DeadReckoningParameters with a tag that is neither 1 nor 2 are read back with success, but six of
-- their forty bytes are left unread, so whatever follows is read out of place.
pub read_dead_reckoning_unknown :
    (x : DeadReckoningParameters) (tag : ℕ) (rest : List ℕ)
    → U8 x.algorithm
    → U8 tag
    → tag ≢ 1
    → tag ≢ 2
    → let written = stream (dead_reckoning_chunks (record x { params = unknown tag })) rest in
      (y : DeadReckoningParameters) × (left : List ℕ) × (read_dead_reckoning written
        ≡ (some y, left))
      × (length written ≡ length rest + 40)
      × (length left ≡ length rest + 6)
unfolding dead_reckoning_chunks read_dead_reckoning drm_chunks
read_dead_reckoning_unknown x tag rest a t h k = (
  last.0,
  drop 24 (zeros 6 ++ vectors),
  (Runs-bind _ (Runs-pure _ _ ⊛ u8 a ⊛ u8 t)
      (Runs-bind _ (drm_unknown tag vectors h k) (record { gives = last.1 }))).gives,
  omega (
    arith,
    length-stream (dead_reckoning_chunks (record x { params = unknown tag })) rest,
    total-dead_reckoning (record x { params = unknown tag }),
  ),
  omega (arith, length-drop 24 (zeros 6 ++ vectors), room),
)
  where
    vectors : List ℕ
    vectors = stream (vector_chunks x.linear_acceleration ++ vector_chunks x.angular_velocity) rest

    room : length (zeros 6 ++ vectors) ≡ length rest + 30
    room = omega (
      arith,
      length-append (zeros 6) vectors,
      length-zeros 6,
      length-stream (vector_chunks x.linear_acceleration ++ vector_chunks x.angular_velocity) rest,
      total-append (vector_chunks x.linear_acceleration) (vector_chunks x.angular_velocity),
      total-vector x.linear_acceleration,
      total-vector x.angular_velocity,
    )

    last :
        (y : DeadReckoningParameters) × ((pure (make_dead_reckoning x.algorithm (unknown tag))
              <*> read_vector
              <*> read_vector)
            (zeros 6 ++ vectors)
          ≡ (some y, drop 24 (zeros 6 ++ vectors)))
    last =
        (Exact-pure (make_dead_reckoning x.algorithm (unknown tag))
            & vector_twelve
            & vector_twelve).takes
          _ (omega (arith, room))
