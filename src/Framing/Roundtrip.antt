-- ===== src/Framing/Roundtrip.antt =====
-- Frames written and read back, whatever the chunks.
use anolis.Base.{
  ℕ, ◌+◌, ◌≤◌, ◌<◌, ◌≡◌, refl, sym, ap, ◌∙◌, subst, Bool, true, false, not, Option, List, [], ◌∷◌,
  ◌++◌, if◌then◌else◌, arith, ltb, length, take, drop, length-append, append_assoc, append_nil,
  Bool-cases, inl, inr,
}
use anolis.Framing.{
  FrameError, eof_length, eof_payload, WriteStep, ReadStep, done, Written, ReadBack,
  k_max_frame_size, write_exact, read_exact, length_prefix, prefix_length, write_frame, read_frame,
  name_eof, read_payload, then_written, is_done,
}
use anolis.Framing.Writing.{takes, Sends, write_exact-Sends, write_exact-WritesAll}
use anolis.Framing.Reading.{feeds, read_exact-ReadsAll}

-- A frame on the wire.
abbrev pub frame_of : List ℕ → List ℕ
unfolding length_prefix
frame_of payload = length_prefix (length payload) ++ payload

prefix_length-length_prefix : (n : ℕ) → n < 4294967296 → prefix_length (length_prefix n) ≡ n
unfolding prefix_length length_prefix
prefix_length-length_prefix n h = omega arith

take-frame : (a b c d : ℕ) (xs : List ℕ) → take 4 (a ∷ b ∷ c ∷ d ∷ xs) ≡ a ∷ b ∷ c ∷ d ∷ []
take-frame a b c d xs = refl

take-length : (xs ys : List ℕ) → take (length xs) (xs ++ ys) ≡ xs
take-length [] ys = refl
take-length (x ∷ xs) ys = ap (λ r. x ∷ r) (take-length xs ys)

drop-length : (xs ys : List ℕ) → drop (length xs) (xs ++ ys) ≡ ys
drop-length [] ys = refl
drop-length (x ∷ xs) ys = drop-length xs ys

then_written-Sends :
    (xs ys : List ℕ) (head body : Written)
    → Sends xs head
    → Sends ys body
    → Sends (xs ++ ys) (then_written head body)
then_written-Sends xs ys head body p q = elim (Bool-cases (is_done head.write_outcome)) [
  | inl t ↦ rw (t) record {
    unsent = q.unsent;
    begins =
        append_assoc head.sent body.sent q.unsent
        ∙ (ap (λ r. head.sent ++ r) q.begins ∙ ap (λ r. r ++ ys) (all_sent t));
    finished = q.finished;
  }
  | inr f ↦ rw (f) record {
    unsent = p.unsent ++ ys;
    begins = sym (append_assoc head.sent p.unsent ys) ∙ ap (λ r. r ++ ys) p.begins;
    finished = λ e. absurd (ground (arith, e, f));
  }
]
  where
    all_sent : is_done head.write_outcome ≡ true → head.sent ≡ xs
    all_sent t =
        sym (append_nil head.sent)
        ∙ (ap (λ r. head.sent ++ r) (sym (p.finished (ground arith))) ∙ p.begins)

-- Whatever write_frame does, what it has put into the pipe is a beginning of the frame, and the whole
-- frame when it is done; a payload above the limit puts nothing there.
pub write_frame-Sends :
    (e : Option FrameError) (t : Option ℕ) (payload : List ℕ) (ss : List WriteStep)
    → Sends (frame_of payload) (write_frame e t payload ss)
unfolding write_frame frame_of
write_frame-Sends e t payload ss = elim (Bool-cases (ltb k_max_frame_size (length payload))) [
  | inl big ↦
      rw (big)
        record { unsent = frame_of payload; begins = refl; finished = λ h. absurd (ground arith) }
  | inr fits ↦ rw (fits) (
      then_written-Sends (length_prefix (length payload)) payload _ _
        (write_exact-Sends e t (length_prefix (length payload)) ss)
        (write_exact-Sends _ t payload _))
]

-- With rounds enough, write_frame is done with any payload up to the limit.
pub write_frame_finishes :
    (e : Option FrameError) (t : Option ℕ) (payload : List ℕ) (ss : List WriteStep)
    → length payload ≤ k_max_frame_size
    → takes t (4 + length payload) ss ≡ true
    → (write_frame e t payload ss).write_outcome ≡ done
unfolding write_frame length_prefix
write_frame_finishes e t payload ss small k =
    let head =
      write_exact-WritesAll e t (length payload) (4 + length payload)
        (length_prefix (length payload)) ss (omega arith) k in
    let body =
      write_exact-WritesAll (write_exact e t (length_prefix (length payload)) ss).write_error_text t
        0 (length payload) payload (write_exact e t (length_prefix (length payload)) ss).write_rest
        (omega arith) head.takes_more in
    ground (arith, head.is_written, body.is_written)

done_fits :
    (e : Option FrameError) (t : Option ℕ) (payload : List ℕ) (ss : List WriteStep)
    → (write_frame e t payload ss).write_outcome ≡ done
    → length payload ≤ k_max_frame_size
unfolding write_frame
done_fits e t payload ss w = elim (Bool-cases (ltb k_max_frame_size (length payload))) [
  | inl big ↦ absurd (ground (arith, big, w))
  | inr fits ↦ ground (arith, fits)
]

-- What read_frame gives of a pipe.
pub record Framed (payload rest : List ℕ) (r : ReadBack) : Type 0 where
  pub is_framed : r.read_outcome ≡ done
  pub payload_read : r.out ≡ payload
  pub rest_left : r.pipe ≡ rest

name_eof_done : (e : FrameError) (r : ReadBack) → r.read_outcome ≡ done → name_eof e r ≡ r
name_eof_done e r h = ground (arith, h)

if_false : {A : Type 0} (x y : A) (b : Bool) → b ≡ false → (if b then x else y) ≡ y
if_false x y b e = rw (e) refl

read_payload_fits :
    (o : Bool) (t : Option ℕ) (n : ℕ) (bytes : List ℕ) (head : ReadBack)
    → head.read_outcome ≡ done
    → prefix_length head.out ≡ n
    → n ≤ k_max_frame_size
    → head.pipe ≡ bytes
    → (read_exact o head.read_error_text t n bytes head.read_rest).read_outcome ≡ done
    → read_payload o t head ≡ read_exact o head.read_error_text t n bytes head.read_rest
unfolding read_payload
read_payload_fits o t n bytes head h len small pipe_is is_read =
    let fits : ltb k_max_frame_size (prefix_length head.out) ≡ false = ground (arith, len, small) in
    let dones : is_done head.read_outcome ≡ true = ground (arith, h) in
    if_false _ _ (not (is_done head.read_outcome)) (ground (arith, dones))
    ∙ (if_false _ _ (ltb k_max_frame_size (prefix_length head.out)) fits
        ∙ (ap
              (λ m.
                name_eof eof_payload
                  (read_exact o head.read_error_text t m head.pipe head.read_rest))
              len
            ∙ (ap
                  (λ b.
                    name_eof eof_payload (read_exact o head.read_error_text t n b head.read_rest))
                  pipe_is
                ∙ name_eof_done eof_payload _ is_read)))

read_payload-Framed :
    (o : Bool) (t : Option ℕ) (payload rest : List ℕ) (head : ReadBack)
    → head.read_outcome ≡ done
    → head.out ≡ length_prefix (length payload)
    → head.pipe ≡ payload ++ rest
    → length payload ≤ k_max_frame_size
    → feeds o t (length payload) head.read_rest ≡ true
    → Framed payload rest (read_payload o t head)
unfolding read_payload
read_payload-Framed o t payload rest head h out_is pipe_is small k =
    let len : prefix_length head.out ≡ length payload =
      ap prefix_length out_is ∙ prefix_length-length_prefix (length payload) (ground arith) in
    let body =
      read_exact-ReadsAll o head.read_error_text t (length payload) 0 (length payload)
        (payload ++ rest) head.read_rest (omega arith) (omega (arith, length-append payload rest))
        k in
    subst (λ r. Framed payload rest r)
      (sym (
        read_payload_fits o t (length payload) (payload ++ rest) head h len small pipe_is
          body.is_read))
      record {
        is_framed = body.is_read;
        payload_read = body.got ∙ take-length payload rest;
        rest_left = body.left ∙ drop-length payload rest;
      }

pub read_frame-frame_of :
    (o : Bool) (e : Option FrameError) (t : Option ℕ) (payload rest : List ℕ) (ss : List ReadStep)
    → length payload ≤ k_max_frame_size
    → feeds o t (4 + length payload) ss ≡ true
    → Framed payload rest (read_frame o e t (frame_of payload ++ rest) ss)
unfolding read_frame length_prefix
read_frame-frame_of o e t payload rest ss small k =
    let head =
      read_exact-ReadsAll o e t 4 (length payload) (4 + length payload) (frame_of payload ++ rest)
        ss (omega arith) (ground arith) k in
    rw (name_eof_done eof_length (read_exact o e t 4 (frame_of payload ++ rest) ss) head.is_read)
      (read_payload-Framed o t payload rest _ head.is_read head.got head.left small head.feeds_more)

-- A frame that write_frame has written with any chunking, whatever follows it in the pipe, is read back
-- by read_frame with any chunking as the payload, and what follows it is left in the pipe: the payload
-- is no longer than the limit, and the rounds of the reader are enough for the prefix and the payload.
pub read_frame-write_frame :
    (o : Bool) (e e' : Option FrameError) (t t' : Option ℕ) (payload rest : List ℕ)
    (written : List WriteStep) (ss : List ReadStep)
    → (write_frame e t payload written).write_outcome ≡ done
    → feeds o t' (4 + length payload) ss ≡ true
    → Framed payload rest (read_frame o e' t' ((write_frame e t payload written).sent ++ rest) ss)
read_frame-write_frame o e e' t t' payload rest written ss w k =
    let sends = write_frame-Sends e t payload written in
    let all_sent : (write_frame e t payload written).sent ≡ frame_of payload =
      sym (append_nil _)
      ∙ (ap (λ r. (write_frame e t payload written).sent ++ r) (sym (sends.finished w))
          ∙ sends.begins) in
    subst (λ bytes. Framed payload rest (read_frame o e' t' (bytes ++ rest) ss)) (sym all_sent)
      (read_frame-frame_of o e' t' payload rest ss (done_fits e t payload written w) k)
