-- ===== src/Tests/Modes.antt =====
-- The mode machine at work: a FAULT request that finds AUTO committed meanwhile, a recovery through
-- MANUAL, and the software stop's gate.
use anolis.Base.{◌≡◌, refl, ◌≢◌, Bool, true, false, List, [], ◌∷◌, codes, inl}
use anolis.Mode.{
  RuntimeMode, manual, auto, fault, Callback, rejects, ModeManager, new_manager, Pending,
  begin_change, finish, accepted, is_valid_transition, notify, add_commit_guard,
  on_before_mode_change,
}
use anolis.Mode.Change.{finish_fault}
use anolis.Mode.Threads.{
  System, begins, ends, Reach, here, next, recovery_through_manual, PassesManual,
}
use anolis.Mode.Gates.{install_estop_auto_gate, no_auto_while_engaged}

-- A before-callback that always says no, in worlds that say whether the stop's latch is engaged.
abbrev stubborn : Callback Bool
stubborn w previous_mode next_mode = rejects (codes "no")

abbrev in_manual : ModeManager Bool
in_manual = record {
  current_mode = manual;
  before_callbacks = stubborn ∷ [];
  commit_guards = [];
  callbacks = 7 ∷ [];
}

abbrev to_fault : Pending Bool
to_fault = record {
  previous_mode = manual;
  new_mode = fault;
  before_copy = stubborn ∷ [];
  callbacks_copy = 7 ∷ [];
}

abbrev in_auto : ModeManager Bool
in_auto = record in_manual { current_mode = auto }

finish_fault_example :
    finish in_auto to_fault (λ _. false) false
    ≡ (record in_auto { current_mode = fault }, accepted (notify (7 ∷ []) auto fault))
unfolding begin_change is_valid_transition
finish_fault_example = finish_fault in_manual in_auto to_fault (λ _. false) false refl

abbrev to_auto : Pending Bool
to_auto = record {
  previous_mode = manual;
  new_mode = auto;
  before_copy = [];
  callbacks_copy = 7 ∷ [];
}

abbrev at : RuntimeMode → List (Pending Bool) → System Bool
at m changes = record { manager = new_manager m; changes = changes }

abbrev change : RuntimeMode → RuntimeMode → Pending Bool
change from to = record {
  previous_mode = from;
  new_mode = to;
  before_copy = [];
  callbacks_copy = [];
}

recovered : Reach (at fault []) (at auto [])
unfolding begin_change finish is_valid_transition
recovered =
    next
      (next
        (next (next here (begins manual (change fault manual) refl refl))
          (ends [] [] (change fault manual) (λ _. false) false refl refl))
        (begins auto (change manual auto) refl refl))
      (ends [] [] (change manual auto) (λ _. false) false refl refl)

recovery_through_manual_example : PassesManual recovered
recovery_through_manual_example = recovery_through_manual recovered refl (inl refl)

abbrev gated : System Bool
gated = record { manager = install_estop_auto_gate (λ w. w) in_manual; changes = [] }

no_auto_while_engaged_example :
    (finish gated.manager to_auto (λ _. false) true).0.current_mode ≢ auto
unfolding install_estop_auto_gate on_before_mode_change add_commit_guard
no_auto_while_engaged_example =
    no_auto_while_engaged (λ w. w) in_manual gated to_auto (λ _. false) true here refl (λ e. cc)
