-- ===== src/Framing/Writing.antt =====
-- write_exact: what it has sent, and that enough rounds finish it.
use anolis.Base.{
  ℕ, zero, suc, ◌+◌, ◌≤◌, ◌⊎◌, ◌≡◌, refl, ap, ◌∙◌, Bool, true, false, Option, List, [], ◌∷◌, ◌++◌,
  arith, length, take, drop, length-drop, append_assoc, take-drop, inl, inr,
}
use anolis.Framing.{
  FrameError, WriteStep, done, Written, WriteRound, write_again, write_stops, write_took,
  write_round, write_exact,
}

-- The rounds take `n` bytes or more before one of them fails.
unfoldable pub takes : Option ℕ → ℕ → List WriteStep → Bool
unfolding write_round
takes timeout zero steps = true
takes timeout (suc n) [] = false
takes timeout (suc n) (s ∷ steps) = elim (write_round timeout s) [
  | write_again ↦ takes timeout (suc n) steps
  | write_stops _ ↦ false
  | write_took _ ↦ takes timeout n steps
]

WriteRound-cases :
    (r : WriteRound)
    → (r ≡ write_again) ⊎ ((e : FrameError) × (r ≡ write_stops e)) ⊎ ((n : ℕ) × (r ≡ write_took n))
WriteRound-cases write_again = inl refl
WriteRound-cases (write_stops e) = inr (inl (e, refl))
WriteRound-cases (write_took n) = inr (inr (n, refl))

takes_mono :
    (t : Option ℕ) (k n : ℕ) (ss : List WriteStep)
    → k ≤ n
    → takes t n ss ≡ true
    → takes t k ss ≡ true
unfolding takes
takes_mono t zero n ss h e = refl
takes_mono t (suc k) zero ss h e = absurd (omega arith)
takes_mono t (suc k) (suc n) [] h e = absurd (ground arith)
takes_mono t (suc k) (suc n) (s ∷ ss) h e =
    ground (arith, takes_mono t (suc k) (suc n) ss, takes_mono t k n ss)

-- What was written is a beginning of the bytes, and all of them when the write is done.
pub record Sends (buf : List ℕ) (w : Written) : Type 0 where
  pub unsent : List ℕ
  pub begins : w.sent ++ unsent ≡ buf
  pub finished : w.write_outcome ≡ done → unsent ≡ []

pub write_exact-Sends :
    (e : Option FrameError) (t : Option ℕ) (buf : List ℕ) (ss : List WriteStep)
    → Sends buf (write_exact e t buf ss)
unfolding write_exact
write_exact-Sends e t [] ss = record { unsent = []; begins = refl; finished = λ _. refl }
write_exact-Sends e t (b ∷ buf) [] = record {
  unsent = b ∷ buf;
  begins = refl;
  finished = λ h. absurd (ground arith);
}
write_exact-Sends e t (b ∷ buf) (s ∷ ss) = elim (WriteRound-cases (write_round t s)) [
  | inl q ↦ rw (q, write_exact) (write_exact-Sends e t (b ∷ buf) ss)
  | inr (inl (x, q)) ↦
      rw (q, write_exact)
        record { unsent = b ∷ buf; begins = refl; finished = λ h. absurd (ground arith) }
  | inr (inr (n, q)) ↦
      rw (q, write_exact)
        let rest = write_exact-Sends e t (drop n buf) ss in
          record {
            unsent = rest.unsent;
            begins =
                append_assoc (b ∷ take n buf) _ rest.unsent
                ∙ (ap (λ r. (b ∷ take n buf) ++ r) rest.begins ∙ ap (λ r. b ∷ r) (take-drop n buf));
            finished = rest.finished;
          }
]

-- Rounds enough: the write is done, and the rounds left take what is to be written after it.
pub record WritesAll (e : Option FrameError) (t : Option ℕ) (m : ℕ) (w : Written) : Type 0 where
  pub is_written : w.write_outcome ≡ done
  pub same_error : w.write_error_text ≡ e
  pub takes_more : takes t m w.write_rest ≡ true

pub write_exact-WritesAll :
    (e : Option FrameError) (t : Option ℕ) (m q : ℕ) (buf : List ℕ) (ss : List WriteStep)
    → length buf + m ≤ q
    → takes t q ss ≡ true
    → WritesAll e t m (write_exact e t buf ss)
unfolding write_exact takes
write_exact-WritesAll e t m q [] ss h k = record {
  is_written = refl;
  same_error = refl;
  takes_more = takes_mono t m q ss (omega arith) k;
}
write_exact-WritesAll e t m zero (b ∷ buf) ss h k = absurd (omega arith)
write_exact-WritesAll e t m (suc q) (b ∷ buf) [] h k = absurd (ground arith)
write_exact-WritesAll e t m (suc q) (b ∷ buf) (s ∷ ss) h k =
    elim (WriteRound-cases (write_round t s)) [
      | inl g ↦
          rw (g, write_exact)
            (write_exact-WritesAll e t m (suc q) (b ∷ buf) ss h (ground (arith, k, g)))
      | inr (inl (x, g)) ↦ absurd (ground (arith, k, g))
      | inr (inr (n, g)) ↦
          rw (g, write_exact)
            let rest =
                write_exact-WritesAll e t m q (drop n buf) ss (omega (arith, length-drop n buf))
                  (ground (arith, k, g)) in
              record {
                is_written = rest.is_written;
                same_error = rest.same_error;
                takes_more = rest.takes_more;
              }
    ]
