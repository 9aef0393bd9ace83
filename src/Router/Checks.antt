-- ===== src/Router/Checks.antt =====
-- The router's own state, what a call reads of the rest of the runtime, and the checks of
-- execute_call one by one. Other threads may change the modes and the latches between two reads, so
-- every read of the source is a reading of its own. Times are nanoseconds of the steady clock.
use anolis.Base.{
  ℕ, ◌-◌, ◌/◌, Bool, not, ◌&&◌, ◌||◌, Option, none, some, ◌++◌, if◌then◌else◌, ltb, Text, codes,
  text_eq, text_key, Map, find, assign_sorted, is_empty, any, map, to_string, to_upper,
}
use anolis.Protocol.{
  ProviderState, no_provider, unavailable, available, Doubles, StatusCode, code_not_found,
  code_failed_precondition, code_unavailable, Value,
}
use anolis.Registry.{FunctionSpec, RegisteredDevice, DeviceRegistry, get_device_copy, is_actuating}
use anolis.Mode.{RuntimeMode, auto, idle, mode_eq, mode_to_string}
use anolis.Router.{
  CallRequest, CallError, blocked_in_idle, blocked_in_auto, provider_not_found,
  provider_not_available, device_not_found, mode_not_allowed, latched_by_estop, not_rearmed,
  too_soon, Result, ok, err, ◌>>=◌, ◌>>◌,
}
use anolis.Router.Arguments.{coerce_arguments, validate_arguments}

-- mode_manager_, actuation_latch_ and device_loss_latch_ are pointers: whether each is set.
pub record CallRouter : Type 0 where
  pub has_mode_manager : Bool
  pub manual_gating_policy : Text
  pub has_actuation_latch : Bool
  pub has_device_loss_latch : Bool
  pub last_dispatch : Map Text ℕ

unfoldable pub set_mode_manager : CallRouter → Bool → Text → CallRouter
set_mode_manager r manager policy = record r {
  has_mode_manager = manager;
  manual_gating_policy = policy;
}

unfoldable pub set_actuation_latch : CallRouter → Bool → CallRouter
set_actuation_latch r latch = record r { has_actuation_latch = latch }

unfoldable pub set_device_loss_latch : CallRouter → Bool → CallRouter
set_device_loss_latch r latch = record r { has_device_loss_latch = latch }

-- One reading of the two latches: is_engaged(), admits_fault_entry_hooks(), and is_latched(handle).
pub record Latches : Type 0 where
  pub engaged : Bool
  pub admits_hooks : Bool
  pub device_latched : Bool

-- What provider->call gives.
pub data Answer (D : Doubles) : Type 0 where
  call_failed : Text → StatusCode → Answer D
  call_returned : Map Text (Value D) → Answer D

pub record Readings (D : Doubles) : Type 0 where
  pub idle_mode : RuntimeMode
  pub contention_mode : RuntimeMode
  pub allowed_mode : RuntimeMode
  pub provider_of : Text → ProviderState
  pub inventory : DeviceRegistry D
  pub before_lock : Latches
  pub after_lock : Latches
  pub now : ℕ
  pub answer : Answer D

abbrev pub check : Bool → StatusCode → CallError → Result (Unit {0})
check holds code error = if holds then err code error else ok tt

-- last_dispatch_'s key.
unfoldable pub dispatch_key : Text → ℕ → Text
unfolding to_string
dispatch_key handle function_id = handle ++ (codes "/" ++ to_string function_id)

-- The time remaining when a call comes too soon after the last one.
unfoldable pub remaining_ms : ℕ → ℕ → Option ℕ → Option ℕ
remaining_ms interval now none = none
remaining_ms interval now (some last) =
    if ltb ((now - last) / 1000000) interval then some (interval - (now - last) / 1000000) else none

abbrev pub check_provider : Text → ProviderState → Result (Unit {0})
check_provider provider_id no_provider = err code_not_found (provider_not_found provider_id)
check_provider provider_id unavailable = err code_unavailable (provider_not_available provider_id)
check_provider provider_id available = ok tt

unfoldable pub mode_name : CallRouter → RuntimeMode → Text
unfolding mode_to_string
mode_name r mode = if r.has_mode_manager then mode_to_string mode else codes "MANUAL"

module _ {D : Doubles} where
  -- IDLE blocks every call, AUTO a manual one under the policy BLOCK.
  unfoldable pub check_modes : CallRouter → CallRequest D → Readings D → Result (Unit {0})
  check_modes r request seen =
      check (not request.safe_state && r.has_mode_manager && mode_eq seen.idle_mode idle)
        code_failed_precondition blocked_in_idle
      >> check
          (not request.is_automated
            && not request.safe_state
            && r.has_mode_manager
            && mode_eq seen.contention_mode auto
            && text_eq r.manual_gating_policy (codes "BLOCK"))
          code_failed_precondition blocked_in_auto

  unfoldable pub find_device : DeviceRegistry D → Text → Text → Result (RegisteredDevice D)
  unfolding get_device_copy
  find_device inventory provider_id device_id =
      elim (get_device_copy inventory provider_id device_id) [
        | none ↦ err code_not_found device_not_found
        | some device ↦ ok device
      ]

  unfoldable pub mode_allows : FunctionSpec D → Text → Bool
  unfolding to_upper
  mode_allows spec mode =
      is_empty spec.allowed_modes
      || any (λ declared. text_eq (map to_upper declared) mode) spec.allowed_modes

  unfoldable pub check_allowed_modes :
      CallRouter → CallRequest D → Text → FunctionSpec D → RuntimeMode → Result (Unit {0})
  unfolding mode_name mode_allows
  check_allowed_modes r request name spec mode =
      check (not request.safe_state && not (mode_allows spec (mode_name r mode)))
        code_failed_precondition (mode_not_allowed name spec.allowed_modes (mode_name r mode))

  unfoldable pub latch_holds : CallRouter → CallRequest D → FunctionSpec D → Latches → Bool
  unfolding is_actuating
  latch_holds r request spec seen =
      not request.safe_state
      && r.has_actuation_latch
      && seen.engaged
      && is_actuating spec
      && not (request.fault_entry_hook && seen.admits_hooks)

  unfoldable pub loss_holds : CallRouter → CallRequest D → FunctionSpec D → Latches → Bool
  unfolding is_actuating
  loss_holds r request spec seen =
      not request.safe_state
      && request.is_behavior_tree
      && r.has_device_loss_latch
      && seen.device_latched
      && is_actuating spec

  -- The two refusals, made before the provider lock is taken and again under it.
  unfoldable pub check_latches :
      CallRouter → CallRequest D → FunctionSpec D → Latches → Result (Unit {0})
  unfolding latch_holds loss_holds
  check_latches r request spec seen =
      check (latch_holds r request spec seen) code_failed_precondition latched_by_estop
      >> check (loss_holds r request spec seen) code_failed_precondition not_rearmed

  unfoldable pub prepare_args : FunctionSpec D → Map Text (Value D) → Result (Map Text (Value D))
  unfolding coerce_arguments validate_arguments
  prepare_args spec args = coerce_arguments spec.args args >>= λ coerced.
      validate_arguments spec.args coerced >> ok coerced

  -- The interval since the last dispatch, and the record of this one.
  unfoldable pub check_interval :
      CallRouter → CallRequest D → Text → FunctionSpec D → ℕ → Result CallRouter
  unfolding dispatch_key remaining_ms find assign_sorted
  check_interval r request name spec now =
      let key = dispatch_key request.device_handle spec.spec_function_id in
      let dispatched = record r { last_dispatch = assign_sorted key now r.last_dispatch } in
      if ltb 0 spec.min_interval_ms
      then (if request.safe_state
          then ok dispatched
          else elim (remaining_ms spec.min_interval_ms now (find key r.last_dispatch)) [
            | some retry ↦ err code_failed_precondition (too_soon name spec.min_interval_ms retry)
            | none ↦ ok dispatched
          ])
      else ok r
