-- ===== src/Tests/Stopping.antt =====
-- The software stop at work on the rig's motor.
use anolis.Base.{
  ◌≡◌, ◌≢◌, ◌↔◌, ◌⊎◌, refl, true, false, not, none, some, List, [], ◌∷◌, Text, codes, pos, any, All,
  map, is_empty, Map, text_key, find, assign, assign_sorted, contains,
}
use anolis.Protocol.{Value, type_uint64, uint64_value}
use anolis.Router.Arguments.{
  coerce_value, coerce_arguments, to_uint64, check_given, check_required, spec_map,
  validate_arguments, validate_argument_type, validate_argument_range, range_check, check_bounds,
}
use anolis.LatchStore.{
  Disk, saves, crash_writing, torn, removes, reads_well, exists_fails, load, save, latch_doc,
  document, persisted, absent,
}
use anolis.LatchStore.Crash.{save_atomic, load-save}
use anolis.SafeState.{
  CallConfig, SafeStateConfig, parameter_int64, no_rung, setpoints_rung, planned_safe_state_kind,
  zeroed, build_zero_args, zero_args_from, zero_value, actuating_functions_for, actuating_of,
  setpoint_matches, to_call_request, provider_args, to_provider_value,
}
use anolis.SafeState.Ladder.{is_success, run_ladder, run_rung, run_declared, run_call}
use anolis.SafeState.Plan.{DevicesCovered, planned_setpoints}
use anolis.SafeState.Zeroing.{IsZero, is_given, zeroed_exact}
use anolis.SafeState.Achieved.{rung_handles, RungDelivered, achieved_reached_all}
use anolis.SafeState.Controller.{Plant, clear, hold, attach_latch_store}
use anolis.SafeState.Stop.{
  StopOp, clears, holds, restarts, stop_step, stop_steps, on_disk, first_start,
}
use anolis.SafeState.Restart.{latch_survives_restart}
use anolis.Router.Execute.{execute_call}
use anolis.Tests.Rig.{whole_doubles, duty, set_duty, motor, router, latches, reading}

abbrev stop_motor : CallConfig whole_doubles
stop_motor = record {
  call_handle = codes "sim0/m";
  call_function_id = 7;
  call_function_name = [];
  call_args = (codes "duty", parameter_int64 (pos 0)) ∷ [];
}

abbrev declared : SafeStateConfig whole_doubles
declared = record { hooks = []; setpoints = stop_motor ∷ []; zero_is_safe = false }

planned_setpoints_example : (planned_safe_state_kind (motor ∷ []) declared ≡ setpoints_rung) ↔ (
    (declared.hooks ≡ [])
    × ((stop_motor ∷ [] ≢ []) × DevicesCovered (stop_motor ∷ []) (motor ∷ [])))
planned_setpoints_example = planned_setpoints (motor ∷ []) declared

abbrev no_duty : Map Text (Value whole_doubles)
no_duty = (codes "duty", record { value_type = type_uint64; kind = uint64_value 0 }) ∷ []

duty_zeroed : build_zero_args set_duty ≡ zeroed no_duty
unfolding build_zero_args zero_args_from zero_value assign_sorted
duty_zeroed = refl

zeroed_exact_example :
    (is_empty no_duty ≡ false)
    × (All (λ e. IsZero e.1) no_duty
        × All (λ arg. arg.required ≡ true → is_given arg.arg_name no_duty ≡ true) (duty ∷ []))
zeroed_exact_example = zeroed_exact set_duty no_duty duty_zeroed

abbrev plant : Plant whole_doubles
plant = record {
  devices = motor ∷ [];
  safety = declared;
  seen = λ n. reading (latches true false false) 0;
  router = router;
}

motor_stopped : (run_ladder plant.devices plant.safety none none plant.seen plant.router).1.1 ≡ true
unfolding run_ladder run_rung run_declared run_call planned_safe_state_kind actuating_functions_for
    actuating_of setpoint_matches to_call_request provider_args to_provider_value execute_call
    coerce_value coerce_arguments assign find validate_arguments contains to_uint64 check_given
    check_required spec_map validate_argument_type validate_argument_range range_check check_bounds
    assign_sorted
motor_stopped = refl

achieved_reached_all_example :
    (planned_safe_state_kind (motor ∷ []) declared ≢ no_rung)
    × ((map
            (λ a. a.outcome_handle)
            (run_ladder (motor ∷ []) declared none none plant.seen router).1.0.actions
          ≡ rung_handles (motor ∷ []) declared (planned_safe_state_kind (motor ∷ []) declared))
        × ((any
                (λ a. not (is_success a))
                (run_ladder (motor ∷ []) declared none none plant.seen router).1.0.actions
              ≡ false)
            × (RungDelivered
                  (motor ∷ [])
                  declared
                  (planned_safe_state_kind (motor ∷ []) declared)
                  (run_ladder
                    (motor ∷ [])
                    declared
                    none
                    none
                    plant.seen
                    router).1.0.dispatched_calls
                × (is_empty
                      (run_ladder (motor ∷ []) declared none none plant.seen router).1.0.actions
                    ≡ false))))
achieved_reached_all_example =
    achieved_reached_all (motor ∷ []) declared plant.seen router motor_stopped

abbrev empty_disk : Disk
empty_disk = record { file = none; tmp = none }

record_saved : (save (codes "/etc/rig") (pos 9) (codes "stop") empty_disk saves).1 ≡ some true
unfolding save
record_saved = refl

save_atomic_example :
    (((save (codes "/etc/rig") (pos 9) [] empty_disk (crash_writing torn)).0.file ≡ none)
      ⊎ ((save (codes "/etc/rig") (pos 9) [] empty_disk (crash_writing torn)).0.file
          ≡ some (document (latch_doc (codes "/etc/rig") (pos 9) []))))
    × ((save (codes "/etc/rig") (pos 9) [] empty_disk (crash_writing torn)).1 ≡ some true
        → (save (codes "/etc/rig") (pos 9) [] empty_disk (crash_writing torn)).0.file
          ≡ some (document (latch_doc (codes "/etc/rig") (pos 9) [])))
save_atomic_example = save_atomic (codes "/etc/rig") (pos 9) [] empty_disk (crash_writing torn)

load-save_example :
    ((load
        (codes "/etc/rig")
        (save (codes "/etc/rig") (pos 9) (codes "stop") empty_disk saves).0
        reads_well).persisted_state
      ≡ persisted)
    × (((load
            (codes "/etc/rig")
            (save (codes "/etc/rig") (pos 9) (codes "stop") empty_disk saves).0
            reads_well).latched_at_epoch_ms
          ≡ some (pos 9))
        × ((load
              (codes "/etc/rig")
              (save
                (codes "/etc/rig")
                (pos 11)
                []
                (save (codes "/etc/rig") (pos 9) (codes "stop") empty_disk saves).0
                (crash_writing torn)).0
              exists_fails).persisted_state
            ≢ absent))
load-save_example =
    load-save (codes "/etc/rig") (pos 9) (pos 11) (codes "stop") [] empty_disk saves
      (crash_writing torn) exists_fails record_saved

abbrev stops : List (StopOp whole_doubles)
stops =
    holds (codes "chain") (pos 1) saves
    ∷ clears (some (some (codes "still stopped"))) removes
    ∷ restarts (pos 2) reads_well
    ∷ clears none removes
    ∷ holds (codes "again") (pos 3) saves
    ∷ []

stops_held :
    (stop_steps whole_doubles (codes "/etc/rig") first_start stops).controller.latched ≡ true
unfolding stop_steps stop_step hold clear attach_latch_store on_disk save load
stops_held = refl

latch_survives_restart_example :
    (stop_step whole_doubles
      (codes "/etc/rig")
      (stop_steps whole_doubles (codes "/etc/rig") first_start stops)
      (restarts (pos 8) exists_fails)).controller.latched
    ≡ true
latch_survives_restart_example =
    latch_survives_restart whole_doubles (codes "/etc/rig") stops (pos 8) exists_fails
      (refl, (tt, (refl, (tt, (refl, tt))))) stops_held
