-- ===== src/Dis/RoundTrip/TrackJams.antt =====
-- A beam of serde.hpp with more track jams than its record length counts.
use libcsics.Base.{
  ℕ, ◌+◌, ◌*◌, ◌/◌, ◌%◌, ◌≡◌, refl, sym, ap, ◌∙◌, List, [], ◌∷◌, ◌++◌, Option, none, some, arith,
  length, length-append,
}
use libcsics.Wire.Reads.{stream, stream-append, all_chunks}
use libcsics.Dis.Pdus.{TrackJam, Beam}
use libcsics.Dis.Encode.{track_jam_chunks, track_jams_size, track_jams_chunks, beam_chunks}
use libcsics.Dis.Decode.{read_beam}
use libcsics.Dis.RoundTrip.Emission.{IsBeam, Runs-beam}

-- The track jams of a beam and more of them.
abbrev pub with_more : Option (List TrackJam) → List TrackJam → Option (List TrackJam)
with_more none more = some more
with_more (some jams) more = some (jams ++ more)

stream-all_chunks-append :
    (js more : List TrackJam) (rest : List ℕ)
    → stream (all_chunks track_jam_chunks (js ++ more)) rest
      ≡ stream (all_chunks track_jam_chunks js) (stream (all_chunks track_jam_chunks more) rest)
stream-all_chunks-append [] more rest = refl
stream-all_chunks-append (j ∷ js) more rest =
    let tail = all_chunks track_jam_chunks js in
    stream-append (track_jam_chunks j) (all_chunks track_jam_chunks (js ++ more)) rest
    ∙ ap (stream (track_jam_chunks j)) (stream-all_chunks-append js more rest)
    ∙ sym (stream-append (track_jam_chunks j) tail (stream (all_chunks track_jam_chunks more) rest))

track_jams-with_more :
    (jams : Option (List TrackJam)) (more : List TrackJam) (rest : List ℕ)
    → stream (track_jams_chunks (with_more jams more)) rest
      ≡ stream (track_jams_chunks jams) (stream (all_chunks track_jam_chunks more) rest)
unfolding track_jams_chunks
track_jams-with_more none more rest = refl
track_jams-with_more (some js) more rest = stream-all_chunks-append js more rest

record_length-with_more :
    (jams : Option (List TrackJam)) (more : List TrackJam) (k : ℕ)
    → length more ≡ 128 * k
    → (416 + 64 * track_jams_size (with_more jams more)) / 32 % 256
      ≡ (416 + 64 * track_jams_size jams) / 32 % 256
record_length-with_more none more k h = omega (arith, h)
record_length-with_more (some js) more k h = omega (arith, h, length-append js more)

-- A beam whose fields fit their types, written with a multiple of 128 more track jams than the at most
-- 121 that it has, gets the record length of the beam without them: it is read back as that beam, and
-- the others are left unread.
pub read_beam-beam_chunks :
    (x : Beam) (more : List TrackJam) (k : ℕ) (rest : List ℕ)
    → IsBeam x
    → length more ≡ 128 * k
    → let longer = record x { track_jams = with_more x.track_jams more } in
      read_beam (stream (beam_chunks longer) rest)
      ≡ (some x, stream (all_chunks track_jam_chunks more) rest)
unfolding beam_chunks
read_beam-beam_chunks x more k rest h wraps =
    let longer = record x { track_jams = with_more x.track_jams more } in
    let same : stream (beam_chunks longer) rest
        ≡ stream (beam_chunks x) (stream (all_chunks track_jam_chunks more) rest) =
      simp (
        stream-append,
        record_length-with_more x.track_jams more k wraps,
        track_jams-with_more x.track_jams more rest,
      ) in
    ap read_beam same ∙ (Runs-beam x h (stream (all_chunks track_jam_chunks more) rest)).gives
