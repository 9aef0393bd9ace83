-- ===== src/SafeState.antt =====
-- core/control/safe_state.{hpp,cpp}, core/control/provider_value_bridge.hpp: the ladder that drives the
-- machine to its safe state, and the latch of the software stop. This file has the plan: which rung
-- runs, and which functions it covers.
pub mod Ladder
pub mod Controller
pub mod Plan
pub mod Zeroing
pub mod Delivered
pub mod Achieved
pub mod Stop
pub mod Restart
use anolis.Base.{
  ℕ, Bool, true, false, not, ◌&&◌, ◌||◌, Option, none, some, List, [], ◌∷◌, ◌++◌, if◌then◌else◌,
  eqb, any, is_empty, map, keep, Text, codes, text_eq, text_key, Map, assign_sorted, ℤ, pos,
}
use anolis.Protocol.{
  Doubles, Value, Kind, ValueType, type_bool, type_int64, type_uint64, type_double, type_string,
  type_bytes, bool_value, int64_value, uint64_value, double_value, string_value, ArgSpec, Category,
  category_actuate,
}
use anolis.Registry.{FunctionSpec, RegisteredDevice, DeviceRegistry, get_handle}
use anolis.Router.{CallRequest}
use anolis.Router.Execute.{validate_call}

-- automation::ParameterValue.
pub data ParameterValue (D : Doubles) : Type 0 where
  parameter_double : D.Double → ParameterValue D
  parameter_int64 : ℤ → ParameterValue D
  parameter_bool : Bool → ParameterValue D
  parameter_string : Text → ParameterValue D

-- ModeTransitionCallConfig.
pub record CallConfig (D : Doubles) : Type 0 where
  pub call_handle : Text
  pub call_function_id : ℕ
  pub call_function_name : Text
  pub call_args : Map Text (ParameterValue D)

pub record SafeStateConfig (D : Doubles) : Type 0 where
  pub hooks : List (CallConfig D)
  pub setpoints : List (CallConfig D)
  pub zero_is_safe : Bool

pub data SafeStateKind : Type 0 where
  no_rung hooks_rung setpoints_rung zero_rung : SafeStateKind

unfoldable pub safe_state_kind_to_string : SafeStateKind → Text
safe_state_kind_to_string hooks_rung = codes "hooks"
safe_state_kind_to_string setpoints_rung = codes "setpoints"
safe_state_kind_to_string zero_rung = codes "zero"
safe_state_kind_to_string no_rung = codes "none"

-- Why the zero rung cannot drive a function, or the arguments to send.
pub data ZeroArgs (D : Doubles) : Type 0 where
  cannot_zero : Text → ZeroArgs D
  nothing_to_zero : ZeroArgs D
  zeroed : Map Text (Value D) → ZeroArgs D

abbrev is_actuate : Category → Bool
is_actuate category_actuate = true
is_actuate _ = false

module _ {D : Doubles} where
  open D use {double_zero}

  unfoldable pub to_provider_value : ParameterValue D → Value D
  to_provider_value (parameter_double d) = record {
    value_type = type_double;
    kind = double_value d;
  }
  to_provider_value (parameter_int64 n) = record { value_type = type_int64; kind = int64_value n }
  to_provider_value (parameter_bool b) = record { value_type = type_bool; kind = bool_value b }
  to_provider_value (parameter_string s) = record {
    value_type = type_string;
    kind = string_value s;
  }

  unfoldable pub zero_value : ValueType → Option (Value D)
  zero_value type_double =
      some (record { value_type = type_double; kind = double_value double_zero })
  zero_value type_int64 = some (record { value_type = type_int64; kind = int64_value (pos 0) })
  zero_value type_uint64 = some (record { value_type = type_uint64; kind = uint64_value 0 })
  zero_value _ = none

  -- The loop of build_zero_args over the argument specifications.
  unfoldable pub zero_args_from : List (ArgSpec D) → Map Text (Value D) → ZeroArgs D
  unfolding zero_value assign_sorted
  zero_args_from [] args = if is_empty args then nothing_to_zero else zeroed args
  zero_args_from (arg ∷ specs) args =
      if not arg.required then zero_args_from specs args else elim (zero_value arg.arg_type) [
        | none ↦ cannot_zero arg.arg_name
        | some zero ↦ zero_args_from specs (assign_sorted arg.arg_name zero args)
      ]

  unfoldable pub build_zero_args : FunctionSpec D → ZeroArgs D
  unfolding zero_args_from
  build_zero_args spec = zero_args_from spec.args []

  unfoldable pub provider_args :
      Map Text (ParameterValue D) → Map Text (Value D) → Map Text (Value D)
  unfolding to_provider_value assign_sorted
  provider_args [] args = args
  provider_args ((name, value) ∷ rest) args =
      provider_args rest (assign_sorted name (to_provider_value value) args)

  unfoldable pub to_call_request : CallConfig D → CallRequest D
  unfolding provider_args
  to_call_request call = record {
    device_handle = call.call_handle;
    function_id = call.call_function_id;
    function_name = call.call_function_name;
    request_args = provider_args call.call_args [];
    is_automated = false;
    is_behavior_tree = false;
    safe_state = true;
    fault_entry_hook = false;
  }

  unfoldable pub setpoint_matches : CallConfig D → Text → FunctionSpec D → Bool
  setpoint_matches setpoint handle spec =
      let has_id = not (eqb setpoint.call_function_id 0) in
      let has_name = not (is_empty setpoint.call_function_name) in
      if not (text_eq setpoint.call_handle handle)
      then false
      else if has_id && not (eqb setpoint.call_function_id spec.spec_function_id)
      then false
      else if has_name && not (text_eq setpoint.call_function_name spec.spec_function_name)
      then false
      else has_id || has_name

  unfoldable pub actuating_of : Text → Map Text (FunctionSpec D) → List (Text × FunctionSpec D)
  actuating_of handle [] = []
  actuating_of handle ((_, spec) ∷ functions) =
      let rest = actuating_of handle functions in
      if is_actuate spec.category then (handle, spec) ∷ rest else rest

  unfoldable pub actuating_functions_for : List (RegisteredDevice D) → List (Text × FunctionSpec D)
  unfolding actuating_of
  actuating_functions_for [] = []
  actuating_functions_for (device ∷ devices) =
      actuating_of (get_handle device) device.functions_by_id ++ actuating_functions_for devices

  abbrev pub is_covered : List (CallConfig D) → Text × FunctionSpec D → Bool
  is_covered calls f = any (λ call. setpoint_matches call f.0 f.1) calls

  unfoldable pub planned_safe_state_kind :
      List (RegisteredDevice D) → SafeStateConfig D → SafeStateKind
  unfolding actuating_functions_for setpoint_matches
  planned_safe_state_kind devices safety =
      let uncovered =
        keep (λ f. not (is_covered safety.setpoints f)) (actuating_functions_for devices) in
      if not (is_empty safety.hooks)
      then hooks_rung
      else if not (is_empty safety.setpoints) && is_empty uncovered
      then setpoints_rung
      else if safety.zero_is_safe
      then zero_rung
      else no_rung

  abbrev function_path : Text × FunctionSpec D → Text
  function_path (handle, spec) = handle ++ (codes "/" ++ spec.spec_function_name)

  unfoldable pub uncovered_actuating_functions : DeviceRegistry D → List (CallConfig D) → List Text
  unfolding actuating_functions_for setpoint_matches to_call_request
  uncovered_actuating_functions registry calls = map function_path (
      keep
        (λ f. not (
          any
            (λ call. setpoint_matches call f.0 f.1 && validate_call (to_call_request call) registry)
            calls))
        (actuating_functions_for registry.devices))

  -- The call of the zero rung, as the coverage asks about it: not marked as a safe-state call.
  abbrev pub zero_request : Bool → Text → FunctionSpec D → Map Text (Value D) → CallRequest D
  zero_request marked handle spec args = record {
    device_handle = handle;
    function_id = spec.spec_function_id;
    function_name = spec.spec_function_name;
    request_args = args;
    is_automated = false;
    is_behavior_tree = false;
    safe_state = marked;
    fault_entry_hook = false;
  }

  abbrev pub is_zero_covered : DeviceRegistry D → Text × FunctionSpec D → Bool
  unfolding build_zero_args
  is_zero_covered registry (handle, spec) = elim (build_zero_args spec) [
    | zeroed args ↦ validate_call (zero_request false handle spec args) registry
    | _ ↦ false
  ]

  unfoldable pub uncovered_functions :
      DeviceRegistry D → SafeStateConfig D → SafeStateKind → List Text
  unfolding uncovered_actuating_functions actuating_functions_for is_zero_covered
  uncovered_functions registry safety hooks_rung =
      uncovered_actuating_functions registry safety.hooks
  uncovered_functions registry safety setpoints_rung =
      uncovered_actuating_functions registry safety.setpoints
  uncovered_functions registry safety zero_rung =
      map function_path
        (keep (λ f. not (is_zero_covered registry f)) (actuating_functions_for registry.devices))
  uncovered_functions registry safety no_rung =
      map function_path (actuating_functions_for registry.devices)
