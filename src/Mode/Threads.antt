-- ===== src/Mode/Threads.antt =====
-- set_mode called from several threads: each change begins and ends at a moment of its own, and in
-- between other changes commit and callbacks and guards are added.
use anolis.Base.{ℕ, ◌≡◌, true, arith, List, ◌∷◌, ◌++◌, inl, inr, ◌⊎◌}
use anolis.Mode.{
  RuntimeMode, manual, auto, idle, fault, is_valid_transition, Callback, ModeManager, Pending,
  running, begin_change, finish, on_before_mode_change, add_commit_guard, on_mode_change,
}

pub record System (W : Type 0) : Type 0 where
  pub manager : ModeManager W
  pub changes : List (Pending W)

-- `ends` names the world at each before-callback and the one at the commit.
pub data Step {W : Type 0} (s : System W) (s' : System W) : Type 0 where
  begins :
      (new_mode : RuntimeMode) (p : Pending W)
      → begin_change s.manager new_mode ≡ running p
      → s' ≡ record s { changes = p ∷ s.changes }
      → Step s s'
  ends :
      (before after : List (Pending W)) (p : Pending W) (seen : ℕ → W) (w : W)
      → s.changes ≡ before ++ p ∷ after
      → s' ≡ record { manager = (finish s.manager p seen w).0; changes = before ++ after }
      → Step s s'
  adds_before :
      (callback : Callback W)
      → s' ≡ record s { manager = on_before_mode_change s.manager callback }
      → Step s s'
  adds_guard :
      (guard : Callback W)
      → s' ≡ record s { manager = add_commit_guard s.manager guard }
      → Step s s'
  adds_callback :
      (callback : ℕ) → s' ≡ record s { manager = on_mode_change s.manager callback } → Step s s'

pub data Reach {W : Type 0} (s : System W) : System W → Type 0 where
  here : Reach s s
  next : {t u : System W} → Reach s t → Step t u → Reach s u

abbrev pub mode_of : {W : Type 0} → System W → RuntimeMode
mode_of s = s.manager.current_mode

module _ {W : Type 0} where
  finish-valid :
      (m : ModeManager W) (p : Pending W) (seen : ℕ → W) (w : W)
      → is_valid_transition m.current_mode (finish m p seen w).0.current_mode ≡ true
  unfolding finish is_valid_transition
  finish-valid m p seen w = ground arith

  Step-valid : {s t : System W} → Step s t → is_valid_transition (mode_of s) (mode_of t) ≡ true
  unfolding is_valid_transition on_before_mode_change add_commit_guard on_mode_change
  Step-valid (begins new_mode p e eq) = ground arith
  Step-valid {s} (ends before after p seen w e eq) = rw eq (finish-valid s.manager p seen w)
  Step-valid (adds_before c eq) = ground arith
  Step-valid (adds_guard c eq) = ground arith
  Step-valid (adds_callback c eq) = ground arith

  -- The run passes through MANUAL.
  abbrev pub PassesManual : {s t : System W} → Reach s t → Type 0
  PassesManual here = ⊥
  PassesManual (next {t} {u} r st) = PassesManual r ⊎ (mode_of t ≡ manual)

  fault_or_manual :
      {s t : System W} (r : Reach s t)
      → mode_of s ≡ fault
      → PassesManual r ⊎ ((mode_of t ≡ fault) ⊎ (mode_of t ≡ manual))
  unfolding is_valid_transition
  fault_or_manual here h = inr (inl h)
  fault_or_manual (next {t} {u} r st) h = elim (fault_or_manual r h) [
    | inl passed ↦ inl (inl passed)
    | inr (inl still) ↦ inr (ground (arith, Step-valid st))
    | inr (inr m) ↦ inl (inr m)
  ]

  -- Out of FAULT there is one way: whatever the threads, callbacks and guards do, a run that starts
  -- in FAULT and is in AUTO or IDLE at its end has been in MANUAL in between.
  pub recovery_through_manual :
      {s t : System W} (r : Reach s t)
      → mode_of s ≡ fault
      → (mode_of t ≡ auto) ⊎ (mode_of t ≡ idle)
      → PassesManual r
  recovery_through_manual r h a = elim (fault_or_manual r h) [
    | inl passed ↦ passed
    | inr out ↦ absurd (ground arith)
  ]
