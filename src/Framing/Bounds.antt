-- ===== src/Framing/Bounds.antt =====
-- What read_frame gives of any bytes.
use anolis.Base.{
  ℕ, ◌≤◌, ◌≡◌, sym, ap, ◌∙◌, Bool, Option, List, ◌++◌, arith, ltb, length, Bool-cases, inl, inr,
}
use anolis.Framing.{
  FrameError, eof_length, eof_payload, ReadStep, done, ReadBack, k_max_frame_size, prefix_length,
  read_frame, name_eof, read_payload, is_done,
}
use anolis.Framing.Reading.{Takes, read_exact-Takes}

-- The frame that was read stands at the start of the pipe.
pub record Accepted (bytes : List ℕ) (r : ReadBack) : Type 0 where
  pub prefix : List ℕ
  pub four : length prefix ≡ 4
  pub says : prefix_length prefix ≡ length r.out
  pub stands : prefix ++ (r.out ++ r.pipe) ≡ bytes

-- The given bytes are within the limit, and a frame when the read is done.
pub record Bounded (bytes : List ℕ) (r : ReadBack) : Type 0 where
  pub within : length r.out ≤ k_max_frame_size
  pub accepted_when_done : r.read_outcome ≡ done → Accepted bytes r

name_eof-out : (e : FrameError) (r : ReadBack) → (name_eof e r).out ≡ r.out
name_eof-out e r = ground arith

name_eof-pipe : (e : FrameError) (r : ReadBack) → (name_eof e r).pipe ≡ r.pipe
name_eof-pipe e r = ground arith

name_eof-outcome : (e : FrameError) (r : ReadBack) → (name_eof e r).read_outcome ≡ r.read_outcome
name_eof-outcome e r = ground arith

name_eof-Takes :
    (e : FrameError) (n : ℕ) (bytes : List ℕ) (r : ReadBack)
    → Takes n bytes r
    → Takes n bytes (name_eof e r)
name_eof-Takes e n bytes r k = record {
  in_order = rw (name_eof-out e r, name_eof-pipe e r) k.in_order;
  at_most = rw (name_eof-out e r) k.at_most;
  exactly = λ h. rw (name_eof-out e r) (k.exactly (sym (name_eof-outcome e r) ∙ h));
}

read_payload-Bounded :
    (o : Bool) (t : Option ℕ) (bytes : List ℕ) (head : ReadBack)
    → Takes 4 bytes head
    → Bounded bytes (read_payload o t head)
unfolding read_payload
read_payload-Bounded o t bytes head k = elim (Bool-cases (is_done head.read_outcome)) [
  | inr stops ↦
      rw (stops)
        record { within = omega arith; accepted_when_done = λ h. absurd (ground (arith, h, stops)) }
  | inl goes ↦ elim (Bool-cases (ltb k_max_frame_size (prefix_length head.out))) [
    | inl big ↦
        rw (goes, big)
          record { within = omega arith; accepted_when_done = λ h. absurd (ground (arith, h)) }
    | inr fits ↦
        rw (goes, fits)
          let body = name_eof-Takes eof_payload (prefix_length head.out) head.pipe _ (
              read_exact-Takes o head.read_error_text t (prefix_length head.out) head.pipe
                head.read_rest) in
            record {
              within = ground (arith, body.at_most, fits);
              accepted_when_done = λ h. record {
                prefix = head.out;
                four = k.exactly (ground (arith, goes));
                says = sym (body.exactly h);
                stands = ap (λ r. head.out ++ r) body.in_order ∙ k.in_order;
              };
            }
  ]
]

-- Whatever bytes are in the pipe and however they arrive, read_frame gives no more than the limit; and
-- when it is done, the pipe began with four bytes that say the length of what it gives, with that,
-- and with what it leaves.
pub read_frame-Bounded :
    (o : Bool) (e : Option FrameError) (t : Option ℕ) (bytes : List ℕ) (ss : List ReadStep)
    → Bounded bytes (read_frame o e t bytes ss)
unfolding read_frame
read_frame-Bounded o e t bytes ss =
    read_payload-Bounded o t bytes _
      (name_eof-Takes eof_length 4 bytes _ (read_exact-Takes o e t 4 bytes ss))
