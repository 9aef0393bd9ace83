-- ===== src/Tests/Routing.antt =====
-- The registry and the call router at work: a motor with a duty to set and a speed to read.
use anolis.Base.{
  ◌≡◌, refl, true, false, ◌≤◌, arith, some, [], ◌∷◌, codes, text_key, find, assign, assign_sorted,
  contains, ◌⊎◌, ◌↔◌, ◌-◌, ◌/◌, All,
}
use anolis.Registry.{is_actuating}
use anolis.Router.{ok}
use anolis.Router.Arguments.{
  to_uint64, coerce_value, coerce_arguments, validate_argument_type, check_bounds, range_check,
  validate_argument_range, spec_map, check_required, check_given, validate_arguments,
}
use anolis.Router.Arguments.Coercion.{KeepsNumber}
use anolis.Router.Arguments.Validation.{Supplied, Declared, validate_arguments_exact}
use anolis.Router.Selector.{parse_device_handle, resolve_call}
use anolis.Router.Checks.{Latches}
use anolis.Router.Execute.{Dispatch, execute_call, validate_call}
use anolis.Router.Execute.Latched.{latched_sends_nothing, lost_device_not_driven}
use anolis.Router.Execute.Interval.{call_all, rate_limited}
use anolis.Router.Execute.DryRun.{safe_call_sent}
use anolis.Router.Execute.Prepared.{sent_args_faithful}
use anolis.Tests.Rig.{
  whole_doubles, duty, set_duty, get_rpm, motor, rig, forty, forty_unsigned, ask, router, latches,
  reading, duty_call, rpm_call,
}

duty_sent :
    (seen : Latches)
    → (execute_call router (ask 7 forty false false true) (reading seen 0)).sent ≡ some duty_call
unfolding execute_call coerce_value coerce_arguments assign find validate_arguments contains
    to_uint64 check_given check_required spec_map validate_argument_type validate_argument_range
    range_check check_bounds
duty_sent seen = refl

hook_sent :
    (execute_call router (ask 7 forty false true false) (reading (latches true true false) 0)).sent
    ≡ some duty_call
unfolding execute_call coerce_value coerce_arguments assign find validate_arguments contains
    to_uint64 check_given check_required spec_map validate_argument_type validate_argument_range
    range_check check_bounds
hook_sent = refl

rpm_sent :
    (execute_call router (ask 3 [] true false false) (reading (latches false false true) 0)).sent
    ≡ some rpm_call
unfolding execute_call coerce_value coerce_arguments assign find validate_arguments contains
    to_uint64 check_given check_required spec_map validate_argument_type validate_argument_range
    range_check check_bounds
rpm_sent = refl

duty_again :
    (execute_call
      (call_all
        (execute_call router
          (ask 7 forty false true false)
          (reading (latches true true false) 0)).router
        ((ask 3 [] true false false, reading (latches false false true) 100000000) ∷ []))
      (ask 7 forty false true false)
      (reading (latches true true false) 500000000)).sent
    ≡ some duty_call
unfolding execute_call coerce_value coerce_arguments assign find validate_arguments contains
    to_uint64 check_given check_required spec_map validate_argument_type validate_argument_range
    range_check check_bounds call_all assign_sorted
duty_again = refl

latched_sends_nothing_example :
    (false ≡ true) ⊎ (is_actuating set_duty ≡ false) ⊎ ((true ≡ true) × (true ≡ true))
latched_sends_nothing_example =
    latched_sends_nothing router (ask 7 forty false true false)
      (reading (latches true true false) 0) duty_call hook_sent refl refl

lost_device_not_driven_example : (false ≡ true) ⊎ (is_actuating get_rpm ≡ false)
lost_device_not_driven_example =
    lost_device_not_driven router (ask 3 [] true false false) (reading (latches false false true) 0)
      rpm_call rpm_sent refl refl refl

rate_limited_example : 500 ≤ (500000000 - 0) / 1000000
rate_limited_example =
    rate_limited router (ask 7 forty false true false) (ask 7 forty false true false)
      (reading (latches true true false) 0) (reading (latches true true false) 500000000) duty_call
      duty_call ((ask 3 [] true false false, reading (latches false false true) 100000000) ∷ [])
      hook_sent (omega arith) (omega arith, tt) duty_again refl refl refl

duty_valid : validate_call (ask 7 forty false false true) rig ≡ true
unfolding validate_call coerce_value coerce_arguments assign find validate_arguments contains
    to_uint64 check_given check_required spec_map validate_argument_type validate_argument_range
    range_check check_bounds
duty_valid = refl

safe_call_sent_example :
    (call : Dispatch whole_doubles) × ((execute_call router
        (ask 7 forty false false true)
        (reading (latches true false true) 0)).sent
      ≡ some call)
unfolding parse_device_handle
safe_call_sent_example =
    safe_call_sent router (ask 7 forty false false true) (reading (latches true false true) 0)
      (codes "sim0") (codes "m") refl duty_valid refl refl

sent_args_faithful_example :
    All (Supplied forty_unsigned) (duty ∷ [])
    × All (Declared (duty ∷ [])) forty_unsigned
    × KeepsNumber (find (codes "duty") forty) (find (codes "duty") forty_unsigned)
sent_args_faithful_example =
    sent_args_faithful router (ask 7 forty false true false) (reading (latches true true false) 0)
      duty_call (codes "duty") hook_sent

validate_arguments_exact_example :
    (validate_arguments (duty ∷ []) forty_unsigned ≡ ok tt)
    ↔ (All (Supplied forty_unsigned) (duty ∷ []) × All (Declared (duty ∷ [])) forty_unsigned)
validate_arguments_exact_example = validate_arguments_exact (duty ∷ []) forty_unsigned

duty_resolved : resolve_call motor (ask 7 forty false false false) ≡ ok (codes "set_duty", set_duty)
unfolding resolve_call
duty_resolved = refl
