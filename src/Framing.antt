-- ===== src/Framing.antt =====
-- core/provider/framed_stdio_client.{hpp,cpp}: the length-prefixed frames between the runtime and a
-- provider's process, over POSIX pipes. Each round of a loop takes what its system calls gave from a
-- list of steps; a list that ends leaves the loop blocked. A byte is a number below 256. An error text
-- is a value with the parts that the text is built from.
pub mod Writing
pub mod Reading
pub mod Roundtrip
pub mod Bounds
use anolis.Base.{
  ℕ, zero, suc, ◌+◌, ◌-◌, ◌*◌, ◌/◌, ◌%◌, ◌^◌, Bool, true, false, not, ◌&&◌, ◌||◌, Option, none,
  some, List, [], ◌∷◌, ◌++◌, if◌then◌else◌, ltb, leb, Text, length, take, drop, is_empty,
}

abbrev pub k_max_frame_size : ℕ
k_max_frame_size = 1024 * 1024

pub data FrameError : Type 0 where
  frame_too_large write_failed read_failed poll_failed : ℕ → FrameError
  timeout_writing broken_pipe write_returned_zero : FrameError
  timeout_reading timeout_waiting invalid_pipe poll_error eof_length eof_payload : FrameError

-- What `write` gives: the bytes that it took, or an errno.
pub data WriteEvent : Type 0 where
  write_interrupted would_block pipe_broken : WriteEvent
  write_error accepted : ℕ → WriteEvent

pub record WriteStep : Type 0 where
  pub write_elapsed_ms : ℕ
  pub write_event : WriteEvent

-- What `poll` gives, with POLLIN and with one of POLLERR, POLLHUP and POLLNVAL.
pub data PollEvent : Type 0 where
  poll_error_of : ℕ → PollEvent
  poll_timed_out : PollEvent
  poll_ready : Bool → Bool → PollEvent

-- What `read` gives: at most so many of the bytes that are in the pipe, or an errno.
pub data ReadEvent : Type 0 where
  read_interrupted : ReadEvent
  read_error received : ℕ → ReadEvent

pub record ReadStep : Type 0 where
  pub read_elapsed_ms : ℕ
  pub waited : PollEvent
  pub read_event : ReadEvent

pub data Outcome : Type 0 where
  done failed blocked : Outcome

pub record Written : Type 0 where
  pub write_outcome : Outcome
  pub write_error_text : Option FrameError
  pub sent : List ℕ
  pub write_rest : List WriteStep

pub record ReadBack : Type 0 where
  pub read_outcome : Outcome
  pub read_error_text : Option FrameError
  pub out : List ℕ
  pub pipe : List ℕ
  pub read_rest : List ReadStep

-- A negative timeout is `none`.
abbrev pub has_expired : Option ℕ → ℕ → Bool
has_expired none elapsed = false
has_expired (some timeout) elapsed = leb timeout elapsed

abbrev pub error_or : Option FrameError → FrameError → Option FrameError
error_or (some e) _ = some e
error_or none e = some e

-- What one round of write_exact does: `write_took n` took n + 1 bytes, if so many were left.
pub data WriteRound : Type 0 where
  write_again : WriteRound
  write_stops : FrameError → WriteRound
  write_took : ℕ → WriteRound

unfoldable pub write_round : Option ℕ → WriteStep → WriteRound
write_round timeout s =
    if has_expired timeout s.write_elapsed_ms
    then write_stops timeout_writing
    else elim s.write_event [
      | write_interrupted ↦ write_again
      | would_block ↦ write_again
      | pipe_broken ↦ write_stops broken_pipe
      | write_error errno ↦ write_stops (write_failed errno)
      | accepted zero ↦ write_stops write_returned_zero
      | accepted (suc n) ↦ write_took n
    ]

unfoldable pub write_exact : Option FrameError → Option ℕ → List ℕ → List WriteStep → Written
unfolding write_round
write_exact error timeout [] steps = record {
  write_outcome = done;
  write_error_text = error;
  sent = [];
  write_rest = steps;
}
write_exact error timeout (b ∷ buf) [] = record {
  write_outcome = blocked;
  write_error_text = error;
  sent = [];
  write_rest = [];
}
write_exact error timeout (b ∷ buf) (s ∷ steps) = elim (write_round timeout s) [
  | write_again ↦ write_exact error timeout (b ∷ buf) steps
  | write_stops e ↦ record {
    write_outcome = failed;
    write_error_text = some e;
    sent = [];
    write_rest = steps;
  }
  | write_took n ↦
      let rest = write_exact error timeout (drop n buf) steps in
      record rest { sent = (b ∷ take n buf) ++ rest.sent }
]

-- Whether there is data, and the error text after the call.
unfoldable pub wait_for_data : Bool → PollEvent → Option FrameError × Bool
wait_for_data is_open event = if not is_open then (some invalid_pipe, false) else elim event [
  | poll_error_of errno ↦ (some (poll_failed errno), false)
  | poll_timed_out ↦ (none, false)
  | poll_ready readable broken ↦
      if readable then (none, true) else if broken then (some poll_error, false) else (none, false)
]

-- The start of a round of read_exact: whether it goes on to `read`.
unfoldable pub wait_round :
    Bool → Option FrameError → Option ℕ → ReadStep → Option FrameError × Bool
unfolding wait_for_data
wait_round is_open error none s = (error, true)
wait_round is_open error (some timeout) s =
    if leb timeout s.read_elapsed_ms
    then (error_or error timeout_reading, false)
    else let (error', ready) = wait_for_data is_open s.waited in
      if ready then (error', true) else (error_or error' timeout_waiting, false)

-- What one round of read_exact does, and the error text after it: `read_took n` reads n + 1 bytes, if
-- there are so many and so many are wanted.
pub data ReadRound : Type 0 where
  read_again read_stops : Option FrameError → ReadRound
  read_took : Option FrameError → ℕ → ReadRound

unfoldable pub read_round : Bool → Option FrameError → Option ℕ → ReadStep → ReadRound
unfolding wait_round
read_round is_open error timeout s =
    let (error', ready) = wait_round is_open error timeout s in
    if not ready then read_stops error' else elim s.read_event [
      | read_interrupted ↦ read_again error'
      | read_error errno ↦ read_stops (some (read_failed errno))
      | received zero ↦ read_stops error'
      | received (suc n) ↦ read_took error' n
    ]

abbrev pub min_ℕ : ℕ → ℕ → ℕ
min_ℕ a b = if ltb a b then a else b

unfoldable pub read_exact :
    Bool → Option FrameError → Option ℕ → ℕ → List ℕ → List ReadStep → ReadBack
unfolding read_round
read_exact is_open error timeout zero pipe steps = record {
  read_outcome = done;
  read_error_text = error;
  out = [];
  pipe = pipe;
  read_rest = steps;
}
read_exact is_open error timeout (suc n) pipe [] = record {
  read_outcome = blocked;
  read_error_text = error;
  out = [];
  pipe = pipe;
  read_rest = [];
}
read_exact is_open error timeout (suc n) [] (s ∷ steps) =
    elim (read_round is_open error timeout s) [
      | read_again e ↦ read_exact is_open e timeout (suc n) [] steps
      | read_stops e ↦ record {
        read_outcome = failed;
        read_error_text = e;
        out = [];
        pipe = [];
        read_rest = steps;
      }
      | read_took e _ ↦ record {
        read_outcome = failed;
        read_error_text = e;
        out = [];
        pipe = [];
        read_rest = steps;
      }
    ]
read_exact is_open error timeout (suc n) (b ∷ bytes) (s ∷ steps) =
    elim (read_round is_open error timeout s) [
      | read_again e ↦ read_exact is_open e timeout (suc n) (b ∷ bytes) steps
      | read_stops e ↦ record {
        read_outcome = failed;
        read_error_text = e;
        out = [];
        pipe = b ∷ bytes;
        read_rest = steps;
      }
      | read_took e k ↦
          let c = min_ℕ k n in
          let rest =
            read_exact is_open e timeout (n - min_ℕ c (length bytes)) (drop c bytes) steps in
          record rest { out = (b ∷ take c bytes) ++ rest.out }
    ]

-- The four bytes of a uint32, the lowest first.
unfoldable pub length_prefix : ℕ → List ℕ
length_prefix len = len % 256 ∷ len / 256 % 256 ∷ len / 65536 % 256 ∷ len / 16777216 % 256 ∷ []

-- The four bytes read back; the bytes do not overlap, so that `|` is the sum.
unfoldable pub prefix_length : List ℕ → ℕ
prefix_length (b0 ∷ b1 ∷ b2 ∷ b3 ∷ _) = b0 + b1 * 256 + b2 * 65536 + b3 * 16777216
prefix_length _ = 0

abbrev pub is_done : Outcome → Bool
is_done done = true
is_done _ = false

-- The payload is written only behind the whole length prefix.
abbrev pub then_written : Written → Written → Written
then_written head body =
    if is_done head.write_outcome then record body { sent = head.sent ++ body.sent } else head

unfoldable pub write_frame : Option FrameError → Option ℕ → List ℕ → List WriteStep → Written
unfolding write_exact length_prefix
write_frame error timeout payload steps =
    if ltb k_max_frame_size (length payload)
    then record {
      write_outcome = failed;
      write_error_text = some (frame_too_large (length payload));
      sent = [];
      write_rest = steps;
    }
    else let head = write_exact error timeout (length_prefix (length payload)) steps in
      then_written head (write_exact head.write_error_text timeout payload head.write_rest)

-- An end of the data without an error text gets one.
abbrev pub name_eof : FrameError → ReadBack → ReadBack
name_eof eof r = elim r.read_outcome [
  | failed ↦ record r { read_error_text = error_or r.read_error_text eof }
  | _ ↦ r
]

-- The rest of read_frame, with the length prefix in `out`.
unfoldable pub read_payload : Bool → Option ℕ → ReadBack → ReadBack
unfolding read_exact prefix_length
read_payload is_open timeout head =
    let len = prefix_length head.out in
    if not (is_done head.read_outcome)
    then record head { out = [] }
    else if ltb k_max_frame_size len
    then record head {
      read_outcome = failed;
      read_error_text = some (frame_too_large len);
      out = [];
    }
    else name_eof eof_payload
        (read_exact is_open head.read_error_text timeout len head.pipe head.read_rest)

unfoldable pub read_frame : Bool → Option FrameError → Option ℕ → List ℕ → List ReadStep → ReadBack
unfolding read_exact read_payload
read_frame is_open error timeout pipe steps =
    read_payload is_open timeout
      (name_eof eof_length (read_exact is_open error timeout 4 pipe steps))
