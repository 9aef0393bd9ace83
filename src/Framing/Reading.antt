-- ===== src/Framing/Reading.antt =====
-- read_exact: enough rounds and enough bytes in the pipe give exactly the bytes asked for.
use anolis.Base.{
  ℕ, zero, suc, ◌+◌, ◌-◌, ◌≤◌, ◌⊎◌, ◌≡◌, ◌≢◌, refl, ap, ◌∙◌, Bool, true, false, Option, none, some,
  List, [], ◌∷◌, ◌++◌, arith, length, take, drop, length-append, length-drop, take_split,
  drop_split, append_assoc, take-drop, inl, inr,
}
use anolis.Framing.{
  FrameError, ReadStep, Outcome, done, failed, blocked, ReadBack, wait_round, wait_for_data,
  ReadRound, read_again, read_stops, read_took, read_round, read_exact, min_ℕ,
}

-- Whether a round takes bytes; `none` where it stops.
abbrev goes_on : ReadRound → Option Bool
goes_on (read_again _) = some false
goes_on (read_stops _) = none
goes_on (read_took _ _) = some true

-- The rounds read `n` bytes or more, if they are there, before one of them fails.
unfoldable pub feeds : Bool → Option ℕ → ℕ → List ReadStep → Bool
unfolding read_round
feeds is_open timeout zero steps = true
feeds is_open timeout (suc n) [] = false
feeds is_open timeout (suc n) (s ∷ steps) = elim (goes_on (read_round is_open none timeout s)) [
  | some false ↦ feeds is_open timeout (suc n) steps
  | some true ↦ feeds is_open timeout n steps
  | none ↦ false
]

feeds_mono :
    (o : Bool) (t : Option ℕ) (k n : ℕ) (ss : List ReadStep)
    → k ≤ n
    → feeds o t n ss ≡ true
    → feeds o t k ss ≡ true
unfolding feeds
feeds_mono o t zero n ss h e = refl
feeds_mono o t (suc k) zero ss h e = absurd (omega arith)
feeds_mono o t (suc k) (suc n) [] h e = absurd (ground arith)
feeds_mono o t (suc k) (suc n) (s ∷ ss) h e =
    ground (arith, feeds_mono o t (suc k) (suc n) ss, feeds_mono o t k n ss)

ReadRound-cases :
    (r : ReadRound)
    → ((e : Option FrameError) × (r ≡ read_again e))
      ⊎ ((e : Option FrameError) × (r ≡ read_stops e))
      ⊎ ((e : Option FrameError) × (n : ℕ) × (r ≡ read_took e n))
ReadRound-cases (read_again e) = inl (e, refl)
ReadRound-cases (read_stops e) = inr (inl (e, refl))
ReadRound-cases (read_took e n) = inr (inr (e, n, refl))

goes_on-read_round :
    (o : Bool) (e : Option FrameError) (t : Option ℕ) (s : ReadStep)
    → goes_on (read_round o e t s) ≡ goes_on (read_round o none t s)
unfolding read_round wait_round wait_for_data
goes_on-read_round o e none s = ground arith
goes_on-read_round o e (some t) s = ground arith

min_len : (c n l : ℕ) → n ≤ l → min_ℕ (min_ℕ c n) l ≡ min_ℕ c n
min_len c n l h = ground arith

-- The read gives the first `n` bytes of the pipe and leaves the others, with rounds for `m` more.
pub record ReadsAll (o : Bool) (t : Option ℕ) (n m : ℕ) (bytes : List ℕ) (r : ReadBack)
    : Type 0 where
  pub is_read : r.read_outcome ≡ done
  pub got : r.out ≡ take n bytes
  pub left : r.pipe ≡ drop n bytes
  pub feeds_more : feeds o t m r.read_rest ≡ true

pub read_exact-ReadsAll :
    (o : Bool) (e : Option FrameError) (t : Option ℕ) (n m q : ℕ) (bytes : List ℕ)
    (ss : List ReadStep)
    → n + m ≤ q
    → n ≤ length bytes
    → feeds o t q ss ≡ true
    → ReadsAll o t n m bytes (read_exact o e t n bytes ss)
unfolding read_exact feeds
read_exact-ReadsAll o e t zero m q bytes ss h l k = record {
  is_read = refl;
  got = refl;
  left = refl;
  feeds_more = feeds_mono o t m q ss (omega arith) k;
}
read_exact-ReadsAll o e t (suc n) m zero bytes ss h l k = absurd (omega arith)
read_exact-ReadsAll o e t (suc n) m (suc q) bytes [] h l k = absurd (ground arith)
read_exact-ReadsAll o e t (suc n) m (suc q) [] (s ∷ ss) h l k = absurd (omega arith)
read_exact-ReadsAll o e t (suc n) m (suc q) (b ∷ bytes) (s ∷ ss) h l k =
    elim (ReadRound-cases (read_round o e t s)) [
      | inl (x, g) ↦
          rw (g, read_exact)
            (read_exact-ReadsAll o x t (suc n) m (suc q) (b ∷ bytes) ss h l
              (ground (arith, k, goes_on-read_round o e t s, g)))
      | inr (inl (x, g)) ↦ absurd (ground (arith, k, goes_on-read_round o e t s, g))
      | inr (inr (x, c, g)) ↦
          rw (g, read_exact)
            (rw (min_len c n (length bytes) (omega arith))
              let rest =
                  read_exact-ReadsAll o x t (n - min_ℕ c n) m q (drop (min_ℕ c n) bytes) ss
                    (ground arith) (ground (arith, length-drop (min_ℕ c n) bytes))
                    (ground (arith, k, goes_on-read_round o e t s, g)) in
                record {
                  is_read = rest.is_read;
                  got =
                      ap (λ r. (b ∷ take (min_ℕ c n) bytes) ++ r) rest.got
                      ∙ ap (λ r. b ∷ r)
                          (take_split (min_ℕ c n) (n - min_ℕ c n) n bytes (ground arith));
                  left = rest.left ∙ drop_split (min_ℕ c n) (n - min_ℕ c n) n bytes (ground arith);
                  feeds_more = rest.feeds_more;
                })
    ]

length-take_min : (k : ℕ) (xs : List ℕ) → length (take k xs) ≡ min_ℕ k (length xs)
length-take_min zero xs = ground arith
length-take_min (suc k) [] = ground arith
length-take_min (suc k) (x ∷ xs) = ground (arith, length-take_min k xs)

-- The bytes that a read gives and those that it leaves are the pipe's, in order; it gives no more than
-- it was asked for, and all of that when it is done.
pub record Takes (n : ℕ) (bytes : List ℕ) (r : ReadBack) : Type 0 where
  pub in_order : r.out ++ r.pipe ≡ bytes
  pub at_most : length r.out ≤ n
  pub exactly : r.read_outcome ≡ done → length r.out ≡ n

Takes-none :
    (n : ℕ) (bytes : List ℕ) (o : Outcome) (e : Option FrameError) (ss : List ReadStep)
    → o ≢ done
    → Takes n bytes
        (record { read_outcome = o; read_error_text = e; out = []; pipe = bytes; read_rest = ss })
Takes-none n bytes o e ss ne = record {
  in_order = refl;
  at_most = omega arith;
  exactly = λ h. absurd (ne h);
}

failed-ne-done : failed ≢ done
failed-ne-done h = ground (arith, h)

pub read_exact-Takes :
    (o : Bool) (e : Option FrameError) (t : Option ℕ) (n : ℕ) (bytes : List ℕ) (ss : List ReadStep)
    → Takes n bytes (read_exact o e t n bytes ss)
unfolding read_exact
read_exact-Takes o e t zero bytes ss = record {
  in_order = refl;
  at_most = omega arith;
  exactly = λ _. refl;
}
read_exact-Takes o e t (suc n) bytes [] =
    Takes-none (suc n) bytes blocked e [] (λ h. ground (arith, h))
read_exact-Takes o e t (suc n) [] (s ∷ ss) = elim (ReadRound-cases (read_round o e t s)) [
  | inl (x, g) ↦ rw (g, read_exact) (read_exact-Takes o x t (suc n) [] ss)
  | inr (inl (x, g)) ↦ rw (g, read_exact) (Takes-none (suc n) [] failed x ss failed-ne-done)
  | inr (inr (x, c, g)) ↦ rw (g, read_exact) (Takes-none (suc n) [] failed x ss failed-ne-done)
]
read_exact-Takes o e t (suc n) (b ∷ bytes) (s ∷ ss) = elim (ReadRound-cases (read_round o e t s)) [
  | inl (x, g) ↦ rw (g, read_exact) (read_exact-Takes o x t (suc n) (b ∷ bytes) ss)
  | inr (inl (x, g)) ↦
      rw (g, read_exact) (Takes-none (suc n) (b ∷ bytes) failed x ss failed-ne-done)
  | inr (inr (x, c, g)) ↦
      rw (g, read_exact)
        let k = min_ℕ c n in
          let rest = read_exact-Takes o x t (n - min_ℕ k (length bytes)) (drop k bytes) ss in
          record {
            in_order =
                append_assoc (b ∷ take k bytes) _ _
                ∙ (ap (λ r. (b ∷ take k bytes) ++ r) rest.in_order
                    ∙ ap (λ r. b ∷ r) (take-drop k bytes));
            at_most = ground (
              arith,
              length-append (take k bytes)
                  (read_exact o x t (n - min_ℕ k (length bytes)) (drop k bytes) ss).out,
              rest.at_most,
              length-take_min k bytes,
            );
            exactly = λ h. ground (
              arith,
              length-append (take k bytes)
                  (read_exact o x t (n - min_ℕ k (length bytes)) (drop k bytes) ss).out,
              rest.exactly h,
              length-take_min k bytes,
            );
          }
]
