-- ===== src/Parameters/Threads.antt =====
-- ParameterManager::set by several threads: a write ends its lock before its thread makes the calls of the
-- listeners, so that other threads write and call in between.
use anolis.Base.{
  ℕ, zero, suc, ◌≡◌, refl, sym, ap, subst, ◌∙◌, Option, none, some, List, [], ◌∷◌, ◌++◌, eqb, Text,
  All, arith, inl, inr, Bool-cases, Option-cases, append_nil, append_assoc, some-injective,
}
use mathlib.Core.List.{Perm, Permᴰ}
use mathlib.Core.List.Permᴰ
use anolis.Protocol.{Doubles}
use anolis.SafeState.{ParameterValue}
use anolis.Parameters.{ParameterManager, ParameterChange, get}
use anolis.Parameters.Histories.{
  ParameterOp, perform, perform_all, times, NotListening, told, told-append, Chain,
  perform_all-Chain,
}

-- The calls that each thread has still to make, in its order.
abbrev pub joined : {A : Type 0} → List (List A) → List A
joined [] = []
joined (t ∷ ts) = t ++ joined ts

-- The next call of the i-th thread.
unfoldable pub next_call : {A : Type 0} → ℕ → List (List A) → Option (A × List (List A))
next_call i [] = none
next_call zero ([] ∷ ts) = none
next_call zero ((c ∷ cs) ∷ ts) = some (c, cs ∷ ts)
next_call (suc i) (t ∷ ts) = elim (next_call i ts) [
  | none ↦ none
  | some (c, rest) ↦ some (c, t ∷ rest)
]

joined-append :
    {A : Type 0} (ts : List (List A)) (t : List A) → joined (ts ++ t ∷ []) ≡ joined ts ++ t
joined-append [] t = append_nil t
joined-append (u ∷ ts) t =
    ap (λ r. u ++ r) (joined-append ts t) ∙ sym (append_assoc u (joined ts) t)

same-Permᴰ : {A : Type 0} {xs ys : List A} → xs ≡ ys → Permᴰ xs ys
same-Permᴰ {A} {xs} e = subst (Permᴰ xs) e (Permᴰ.refl xs)

next_call-Permᴰ :
    {A : Type 0} (i : ℕ) (ts : List (List A)) (c : A) (rest : List (List A))
    → next_call i ts ≡ some (c, rest)
    → Permᴰ (c ∷ joined rest) (joined ts)
unfolding next_call
next_call-Permᴰ {A} i [] c rest e = absurd (ground (arith, e))
next_call-Permᴰ {A} zero ([] ∷ ts) c rest e = absurd (ground (arith, e))
next_call-Permᴰ {A} zero ((d ∷ ds) ∷ ts) c rest e =
    subst (λ (p : A × List (List A)). Permᴰ (p.0 ∷ joined p.1) (d ∷ (ds ++ joined ts)))
      (some-injective _ _ e) (Permᴰ.refl (d ∷ (ds ++ joined ts)))
next_call-Permᴰ {A} (suc i) (t ∷ ts) c rest e = elim (Option-cases (next_call i ts)) [
  | inl none_left ↦ absurd (ground (arith, e, none_left))
  | inr ((d, r), h) ↦
      subst (λ (p : A × List (List A)). Permᴰ (p.0 ∷ joined p.1) (t ++ joined ts))
        (some-injective (d, t ∷ r) (c, rest) (ground (arith, e, h)))
        (Permᴰ.trans (Permᴰ.symm (Permᴰ.middle d t (joined r)))
          (Permᴰ.append_left t (next_call-Permᴰ i ts d r h)))
]

pub data ThreadStep (D : Doubles) : Type 0 where
  enters : ParameterOp D → ThreadStep D
  calls_back : ℕ → ThreadStep D

pub record Threads (D : Doubles) : Type 0 where
  pub shared : ParameterManager D
  pub pending : List (List (ℕ × ParameterChange D))

module _ {D : Doubles} where
  unfoldable pub thread_step : Threads D → ThreadStep D → Threads D × List (ℕ × ParameterChange D)
  unfolding perform next_call
  thread_step w (enters op) =
      let (m, calls) = perform w.shared op in
      (record { shared = m; pending = w.pending ++ calls ∷ [] }, [])
  thread_step w (calls_back i) = elim (next_call i w.pending) [
    | none ↦ (w, [])
    | some (call, rest) ↦ (record w { pending = rest }, call ∷ [])
  ]

  unfoldable pub thread_steps :
      Threads D → List (ThreadStep D) → Threads D × List (ℕ × ParameterChange D)
  unfolding thread_step
  thread_steps w [] = (w, [])
  thread_steps w (s ∷ steps) =
      let (w', made) = thread_step w s in
      let (w'', later) = thread_steps w' steps in (w'', made ++ later)

  abbrev pub ops_of : List (ThreadStep D) → List (ParameterOp D)
  ops_of [] = []
  ops_of (enters op ∷ steps) = op ∷ ops_of steps
  ops_of (calls_back i ∷ steps) = ops_of steps

  thread_steps-shared :
      (w : Threads D) (steps : List (ThreadStep D))
      → (thread_steps w steps).0.shared ≡ (perform_all w.shared (ops_of steps)).0
  unfolding thread_steps thread_step perform_all
  thread_steps-shared w [] = refl
  thread_steps-shared w (enters op ∷ steps) =
      thread_steps-shared (thread_step w (enters op)).0 steps
  thread_steps-shared w (calls_back i ∷ steps) = elim (Option-cases (next_call i w.pending)) [
    | inl none_left ↦ ground (arith, none_left, thread_steps-shared w steps)
    | inr ((call, rest), e) ↦
        ground (arith, e, thread_steps-shared (record w { pending = rest }) steps)
  ]

  -- What was called and what is still to call are the calls of the writes.
  thread_steps-Permᴰ :
      (w : Threads D) (steps : List (ThreadStep D))
      → Permᴰ
          ((thread_steps w steps).1 ++ joined (thread_steps w steps).0.pending)
          (joined w.pending ++ (perform_all w.shared (ops_of steps)).1)
  unfolding thread_steps thread_step perform_all
  thread_steps-Permᴰ w [] = same-Permᴰ (sym (append_nil (joined w.pending)))
  thread_steps-Permᴰ w (enters op ∷ steps) =
      Permᴰ.trans (thread_steps-Permᴰ (thread_step w (enters op)).0 steps) (
        same-Permᴰ (
          ap (λ c. c ++ later) (joined-append w.pending (perform w.shared op).1)
          ∙ append_assoc (joined w.pending) (perform w.shared op).1 later))
    where
      later : List (ℕ × ParameterChange D)
      later = (perform_all (perform w.shared op).0 (ops_of steps)).1
  thread_steps-Permᴰ w (calls_back i ∷ steps) = elim (Option-cases (next_call i w.pending)) [
    | inl none_left ↦
        subst
          (λ s.
            Permᴰ ((s.1 ++ (thread_steps s.0 steps).1) ++ joined (thread_steps s.0 steps).0.pending)
              (joined w.pending ++ later))
          (sym (waits none_left)) (thread_steps-Permᴰ w steps)
    | inr ((call, rest), e) ↦
        subst
          (λ s.
            Permᴰ ((s.1 ++ (thread_steps s.0 steps).1) ++ joined (thread_steps s.0 steps).0.pending)
              (joined w.pending ++ later))
          (sym (calls call rest e))
          (Permᴰ.trans (Permᴰ.cons refl (thread_steps-Permᴰ (record w { pending = rest }) steps))
            (Permᴰ.append_right later (next_call-Permᴰ i w.pending call rest e)))
  ]
    where
      later : List (ℕ × ParameterChange D)
      later = (perform_all w.shared (ops_of steps)).1

      waits : next_call i w.pending ≡ none → thread_step w (calls_back i) ≡ (w, [])
      waits e = ground (arith, e)

      calls :
          (call : ℕ × ParameterChange D) (rest : List (List (ℕ × ParameterChange D)))
          → next_call i w.pending ≡ some (call, rest)
          → thread_step w (calls_back i) ≡ (record w { pending = rest }, call ∷ [])
      calls call rest e = ground (arith, e)

  module _ (k : ℕ) where
    told_cons :
        (a : ℕ × ParameterChange D) (xs ys : List (ℕ × ParameterChange D))
        → Permᴰ (told k xs) (told k ys)
        → Permᴰ (told k (a ∷ xs)) (told k (a ∷ ys))
    unfolding told
    told_cons (c, change) xs ys r = elim (Bool-cases (eqb c k)) [
      | inl mine ↦ rw (mine, told) (Permᴰ.cons refl r)
      | inr other ↦ rw (other, told) r
    ]

    told_swap :
        (a b : ℕ × ParameterChange D) (xs : List (ℕ × ParameterChange D))
        → Permᴰ (told k (a ∷ b ∷ xs)) (told k (b ∷ a ∷ xs))
    unfolding told
    told_swap (c, change) (d, next) xs = elim (Bool-cases (eqb c k)) [
      | inr other ↦ rw (other, told) (Permᴰ.refl (told k ((d, next) ∷ xs)))
      | inl mine ↦ elim (Bool-cases (eqb d k)) [
        | inr other ↦ rw (mine, other, told) (Permᴰ.refl (change ∷ told k xs))
        | inl both ↦ rw (mine, both, told) (Permᴰ.swap refl refl)
      ]
    ]

    told-Permᴰ :
        {xs ys : List (ℕ × ParameterChange D)} → Permᴰ xs ys → Permᴰ (told k xs) (told k ys)
    unfolding told
    told-Permᴰ Permᴰ.nil = Permᴰ.nil
    told-Permᴰ (Permᴰ.cons {a = a} {l₁ = xs} {l₂ = ys} e r) =
        subst (λ b. Permᴰ (told k (a ∷ xs)) (told k (b ∷ ys))) e (told_cons a xs ys (told-Permᴰ r))
    told-Permᴰ (Permᴰ.swap {a = a} {b = b} {b' = b'} {l = xs} e f) =
        subst (λ c. Permᴰ (told k (a ∷ b ∷ xs)) (told k (c ∷ b' ∷ xs))) f
          (subst (λ c. Permᴰ (told k (a ∷ b ∷ xs)) (told k (b ∷ c ∷ xs))) e (told_swap a b xs))
    told-Permᴰ (Permᴰ.trans r q) = Permᴰ.trans (told-Permᴰ r) (told-Permᴰ q)

  -- A callback that is registered once, and no more in the history, however the writes of threads and
  -- their calls interleave: the calls that it got and those that threads have still to make are together,
  -- in some order, changes of which those of each parameter lead from its value at the start of the
  -- history to its value at the end, each from where the one before it ended.
  pub told_each_change :
      (m : ParameterManager D) (steps : List (ThreadStep D)) (k : ℕ) (name : Text)
      (v : ParameterValue D)
      → times k m.callbacks ≡ 1
      → All (NotListening k) (ops_of steps)
      → get m name ≡ some v
      → (w : ParameterValue D) × (changes : List (ParameterChange D)) × (get
            (thread_steps (record { shared = m; pending = [] }) steps).0.shared
            name
          ≡ some w)
        × Chain name v changes w
        × Perm
            (told k (thread_steps (record { shared = m; pending = [] }) steps).1
              ++ told k
                  (joined (thread_steps (record { shared = m; pending = [] }) steps).0.pending))
            changes
  told_each_change m steps k name v once none_else is_v =
      let (w, is_w, chain) = perform_all-Chain m (ops_of steps) k name v once none_else is_v in
      (
        w,
        told k (perform_all m (ops_of steps)).1,
        ap (λ n. get n name) (thread_steps-shared (start) steps) ∙ is_w,
        chain,
        ∣ subst (λ xs. Permᴰ xs (told k (perform_all m (ops_of steps)).1))
            (told-append k (thread_steps start steps).1
              (joined (thread_steps start steps).0.pending))
            (told-Permᴰ k (thread_steps-Permᴰ start steps)) ∣₁,
      )
    where
      start : Threads D
      start = record { shared = m; pending = [] }
