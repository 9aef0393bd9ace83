-- ===== src/Mode/Gates.antt =====
-- install_estop_auto_gate of core/runtime/actuation_gate.cpp: the software stop's latch and the
-- entry into AUTO. `engaged` is what is_engaged() of the latch answers in a world.
use anolis.Base.{
  ℕ, ◌≡◌, refl, subst, ◌≢◌, Bool, true, false, not, ◌||◌, none, arith, List, [], ◌∷◌, ◌++◌, inl,
  inr, ◌⊎◌, if◌then◌else◌, codes,
}
use anolis.Mode.{
  RuntimeMode, auto, mode_eq, Callback, allows, rejects, ModeManager, Pending, run_guards, finish,
  on_before_mode_change, add_commit_guard, on_mode_change,
}
use anolis.Mode.Threads.{
  System, Step, begins, ends, adds_before, adds_guard, adds_callback, Reach, here, next, mode_of,
}

module _ {W : Type 0} (engaged : W → Bool) where
  unfoldable pub estop_auto_check : Callback W
  estop_auto_check w previous_mode next_mode =
      if not (mode_eq next_mode auto) || not (engaged w)
      then allows
      else rejects (
          codes
            "refusing AUTO: the software stop's latch is engaged. Clear it (POST /v0/estop/clear) once the machine is safe, then enter AUTO.")

  unfoldable pub install_estop_auto_gate : ModeManager W → ModeManager W
  install_estop_auto_gate m =
      add_commit_guard (on_before_mode_change m estop_auto_check) estop_auto_check

  -- The check is among the commit guards.
  abbrev pub HasGate : List (Callback W) → Type 0
  HasGate [] = ⊥
  HasGate (g ∷ rest) = (g ≡ estop_auto_check) ⊎ HasGate rest

  HasGate-append_right : (xs ys : List (Callback W)) → HasGate ys → HasGate (xs ++ ys)
  HasGate-append_right [] ys h = h
  HasGate-append_right (x ∷ xs) ys h = inr (HasGate-append_right xs ys h)

  HasGate-append_left : (xs ys : List (Callback W)) → HasGate xs → HasGate (xs ++ ys)
  HasGate-append_left (x ∷ xs) ys (inl e) = inl e
  HasGate-append_left (x ∷ xs) ys (inr h) = inr (HasGate-append_left xs ys h)
  HasGate-append_left [] ys h = absurd h

  run_guards-HasGate :
      (guards : List (Callback W)) (w : W) (previous_mode : RuntimeMode)
      → HasGate guards
      → run_guards guards w previous_mode auto ≡ none
      → engaged w ≡ false
  unfolding run_guards estop_auto_check
  run_guards-HasGate [] w previous_mode h e = absurd h
  run_guards-HasGate (g ∷ rest) w previous_mode (inl same) e =
      let e' = subst (λ g. run_guards (g ∷ rest) w previous_mode auto ≡ none) same e in ground arith
  run_guards-HasGate (g ∷ rest) w previous_mode (inr h) e =
      ground (arith, run_guards-HasGate rest w previous_mode h)

  finish_keeps_guards :
      (m : ModeManager W) (p : Pending W) (seen : ℕ → W) (w : W)
      → (finish m p seen w).0.commit_guards ≡ m.commit_guards
  unfolding finish
  finish_keeps_guards m p seen w = ground arith

  -- Every run keeps the gate.
  Step-HasGate :
      {s t : System W}
      → Step s t
      → HasGate s.manager.commit_guards
      → HasGate t.manager.commit_guards
  unfolding on_before_mode_change add_commit_guard on_mode_change
  Step-HasGate (begins new_mode p e eq) h = rw eq h
  Step-HasGate {s} (ends before after p seen w e eq) h =
      rw (eq, finish_keeps_guards s.manager p seen w) h
  Step-HasGate (adds_before c eq) h = rw eq h
  Step-HasGate {s} (adds_guard c eq) h = rw eq (HasGate-append_left s.manager.commit_guards _ h)
  Step-HasGate (adds_callback c eq) h = rw eq h

  pub Reach-HasGate :
      {s t : System W}
      → Reach s t
      → HasGate s.manager.commit_guards
      → HasGate t.manager.commit_guards
  Reach-HasGate here h = h
  Reach-HasGate (next r st) h = Step-HasGate st (Reach-HasGate r h)

  pub install_estop_auto_gate-HasGate :
      (m : ModeManager W) → HasGate (install_estop_auto_gate m).commit_guards
  unfolding install_estop_auto_gate on_before_mode_change add_commit_guard
  install_estop_auto_gate-HasGate m = HasGate-append_right m.commit_guards _ (inl refl)

  finish_into_auto :
      (m : ModeManager W) (p : Pending W) (seen : ℕ → W) (w : W)
      → m.current_mode ≢ auto
      → (finish m p seen w).0.current_mode ≡ auto
      → run_guards m.commit_guards w m.current_mode auto ≡ none
  unfolding finish
  finish_into_auto m p seen w out into = ground arith

  finish_engaged :
      (m : ModeManager W) (p : Pending W) (seen : ℕ → W) (w : W)
      → HasGate m.commit_guards
      → engaged w ≡ true
      → m.current_mode ≢ auto
      → (finish m p seen w).0.current_mode ≢ auto
  finish_engaged m p seen w g on out into =
      let off =
        run_guards-HasGate m.commit_guards w m.current_mode g
          (finish_into_auto m p seen w out into) in
      cc

  -- Once the gate is installed, no change commits into AUTO in a world in which the software stop's
  -- latch is engaged, whatever happened between the installation and the commit: before-callbacks
  -- that answered earlier, other threads' changes, further callbacks and guards.
  pub no_auto_while_engaged :
      (m : ModeManager W) (s : System W) (p : Pending W) (seen : ℕ → W) (w : W)
      → Reach (record { manager = install_estop_auto_gate m; changes = [] }) s
      → engaged w ≡ true
      → mode_of s ≢ auto
      → (finish s.manager p seen w).0.current_mode ≢ auto
  no_auto_while_engaged m s p seen w r on out =
      finish_engaged s.manager p seen w (Reach-HasGate r (install_estop_auto_gate-HasGate m)) on out
