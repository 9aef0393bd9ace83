-- ===== src/Mode/Change.antt =====
-- One change of mode: what a commit may do, whatever happened since the change began.
use anolis.Base.{
  ℕ, suc, ◌≡◌, refl, ◌≢◌, true, false, none, arith, List, [], ◌∷◌, Text, if◌then◌else◌,
}
use anolis.Mode.{
  RuntimeMode, fault, mode_eq, is_valid_transition, Callback, ModeManager, Pending, accepted,
  refused, running, begin_change, run_before, run_guards, finish, notify,
}

pub mode_eq→eq : (a b : RuntimeMode) → mode_eq a b ≡ true → a ≡ b
mode_eq→eq a b h = ground arith

module _ {W : Type 0} where
  run_before-fault :
      (seen : ℕ → W) (i : ℕ) (callbacks : List (Callback W)) (previous_mode : RuntimeMode)
      → run_before seen i callbacks previous_mode fault ≡ none
  unfolding run_before
  run_before-fault seen i [] previous_mode = refl
  run_before-fault seen i (c ∷ rest) previous_mode =
      run_before-fault seen (suc i) rest previous_mode

  -- A change into FAULT that has begun cannot be stopped: whatever the before-callbacks and the
  -- guards answer in whatever worlds, and whatever mode other threads have committed meanwhile, it
  -- ends in FAULT and returns true. The callbacks copied at its beginning are told of a change from
  -- the mode current at the commit, or nothing at all if that was FAULT already.
  pub finish_fault :
      (m₀ m : ModeManager W) (p : Pending W) (seen : ℕ → W) (w : W)
      → begin_change m₀ fault ≡ running p
      → finish m p seen w ≡ (
        record m { current_mode = fault },
        accepted (
            if mode_eq m.current_mode fault
            then []
            else notify p.callbacks_copy m.current_mode fault),
      )
  unfolding finish begin_change is_valid_transition
  finish_fault m₀ m p seen w h =
      let e : p.new_mode ≡ fault = ground arith in
      let n : mode_eq p.previous_mode fault ≡ false = ground arith in
      ground (arith, run_before-fault seen 0 p.before_copy p.previous_mode)

  -- A change into another mode succeeds only from the mode that it was judged in, which no other
  -- change has replaced; the transition is a valid one, no before-callback and no guard present at
  -- the commit vetoed it in the world of its call, and the new mode is the one asked for.
  pub finish_accepted :
      (m : ModeManager W) (p : Pending W) (seen : ℕ → W) (w : W)
      (told : List (ℕ × RuntimeMode × RuntimeMode))
      → p.new_mode ≢ fault
      → (finish m p seen w).1 ≡ accepted told
      → (m.current_mode ≡ p.previous_mode)
        × (is_valid_transition m.current_mode p.new_mode ≡ true)
        × (run_before seen 0 p.before_copy p.previous_mode p.new_mode ≡ none)
        × (run_guards m.commit_guards w m.current_mode p.new_mode ≡ none)
        × ((finish m p seen w).0.current_mode ≡ p.new_mode)
  unfolding finish
  finish_accepted m p seen w told other h = ground arith

  -- A change that is refused leaves the manager as it was.
  pub finish_refused :
      (m : ModeManager W) (p : Pending W) (seen : ℕ → W) (w : W) (e : Text)
      → (finish m p seen w).1 ≡ refused e
      → (finish m p seen w).0 ≡ m
  unfolding finish
  finish_refused m p seen w e h = ground arith
