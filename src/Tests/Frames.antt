-- ===== src/Tests/Frames.antt =====
-- Frames cut into chunks: a frame of three bytes, written two bytes at a time and read byte by byte.
use anolis.Base.{◌≡◌, refl, true, none, List, [], ◌∷◌, ◌++◌, ℕ}
use anolis.Framing.{
  WriteStep, ReadStep, write_interrupted, accepted, read_interrupted, received, poll_ready, done,
  write_frame, read_frame, write_round, read_round, wait_round, write_exact, length_prefix,
}
use anolis.Framing.Writing.{takes}
use anolis.Framing.Reading.{feeds}
use anolis.Framing.Roundtrip.{Framed, read_frame-write_frame}
use anolis.Framing.Bounds.{Bounded, read_frame-Bounded}

abbrev payload : List ℕ
payload = 10 ∷ 20 ∷ 30 ∷ []

abbrev takes_two : WriteStep
takes_two = record { write_elapsed_ms = 0; write_event = accepted 2 }

abbrev takes_one : WriteStep
takes_one = record { write_elapsed_ms = 0; write_event = accepted 1 }

abbrev writes : List WriteStep
writes =
    record { write_elapsed_ms = 0; write_event = write_interrupted }
    ∷ takes_two
    ∷ takes_one
    ∷ takes_one
    ∷ takes_two
    ∷ takes_one
    ∷ takes_one
    ∷ takes_one
    ∷ []

abbrev gives_one : ReadStep
gives_one = record { read_elapsed_ms = 0; waited = poll_ready true true; read_event = received 1 }

abbrev reads : List ReadStep
reads =
    record { read_elapsed_ms = 0; waited = poll_ready true true; read_event = read_interrupted }
    ∷ gives_one
    ∷ gives_one
    ∷ gives_one
    ∷ gives_one
    ∷ gives_one
    ∷ gives_one
    ∷ gives_one
    ∷ []

writes_enough : takes none 7 writes ≡ true
unfolding takes write_round
writes_enough = refl

reads_enough : feeds true none 7 reads ≡ true
unfolding feeds read_round wait_round
reads_enough = refl

payload_written : (write_frame none none payload writes).write_outcome ≡ done
unfolding write_frame write_exact write_round length_prefix
payload_written = refl

read_frame-write_frame_example :
    Framed payload
      (7 ∷ [])
      (read_frame true none none ((write_frame none none payload writes).sent ++ 7 ∷ []) reads)
read_frame-write_frame_example =
    read_frame-write_frame true none none none none payload (7 ∷ []) writes reads payload_written
      reads_enough

read_frame-Bounded_example :
    Bounded
      (3 ∷ 0 ∷ 0 ∷ 0 ∷ 10 ∷ 20 ∷ 30 ∷ [])
      (read_frame true none none (3 ∷ 0 ∷ 0 ∷ 0 ∷ 10 ∷ 20 ∷ 30 ∷ []) reads)
read_frame-Bounded_example =
    read_frame-Bounded true none none (3 ∷ 0 ∷ 0 ∷ 0 ∷ 10 ∷ 20 ∷ 30 ∷ []) reads
