-- ===== src/Tests/Rig.antt =====
-- A rig for the tests: a motor with a duty to set and a speed to read, and calls to it.
use anolis.Base.{
  pos_part, Bool, true, false, not, ◌&&◌, ℕ, none, some, [], ◌∷◌, Text, codes, text_key, Map, ℤ,
  pos, ltb_ℤ, none,
}
use anolis.Protocol.{
  available, Doubles, Value, type_int64, type_uint64, int64_value, uint64_value, ArgSpec,
  category_read, category_actuate,
}
use anolis.Registry.{FunctionSpec, RegisteredDevice, DeviceRegistry}
use anolis.Mode.{manual}
use anolis.Router.{CallRequest}
use anolis.Router.Checks.{CallRouter, Latches, Readings, call_returned}
use anolis.Router.Execute.{Dispatch}

abbrev pub whole_doubles : Doubles
whole_doubles = record {
  Double = ℤ;
  of_ℤ = λ n. n;
  double_lt = λ a b. ltb_ℤ a b;
  double_zero = pos 0;
  double_bits = λ n. pos_part n;
  double_eq = λ a b. not (ltb_ℤ a b) && not (ltb_ℤ b a);
}

abbrev pub duty : ArgSpec whole_doubles
duty = record {
  arg_name = codes "duty";
  arg_type = type_uint64;
  required = true;
  min_double = none;
  max_double = none;
  min_int64 = none;
  max_int64 = none;
  min_uint64 = none;
  max_uint64 = some 100;
  allowed_values = [];
}

abbrev pub set_duty : FunctionSpec whole_doubles
set_duty = record {
  spec_function_id = 7;
  spec_function_name = codes "set_duty";
  label = codes "Duty";
  args = duty ∷ [];
  category = category_actuate;
  allowed_modes = codes "manual" ∷ [];
  min_interval_ms = 500;
  requires_lease = false;
}

abbrev pub get_rpm : FunctionSpec whole_doubles
get_rpm = record {
  spec_function_id = 3;
  spec_function_name = codes "get_rpm";
  label = codes "Speed";
  args = [];
  category = category_read;
  allowed_modes = [];
  min_interval_ms = 0;
  requires_lease = false;
}

abbrev pub motor : RegisteredDevice whole_doubles
motor = record {
  provider_id = codes "sim0";
  device_id = codes "m";
  signals_by_id = [];
  functions_by_id = (codes "get_rpm", get_rpm) ∷ (codes "set_duty", set_duty) ∷ [];
}

abbrev pub no_devices : DeviceRegistry whole_doubles
no_devices = record { devices = []; handle_to_index = [] }

abbrev pub rig : DeviceRegistry whole_doubles
rig = record { devices = motor ∷ []; handle_to_index = (codes "sim0/m", 0) ∷ [] }

abbrev pub forty : Map Text (Value whole_doubles)
forty = (codes "duty", record { value_type = type_int64; kind = int64_value (pos 40) }) ∷ []

abbrev pub forty_unsigned : Map Text (Value whole_doubles)
forty_unsigned = (codes "duty", record { value_type = type_uint64; kind = uint64_value 40 }) ∷ []

-- A request by id, from a tree or a FAULT-entry hook or as a safe-state call.
abbrev pub ask : ℕ → Map Text (Value whole_doubles) → Bool → Bool → Bool → CallRequest whole_doubles
ask id args tree hook safe = record {
  device_handle = codes "sim0/m";
  function_id = id;
  function_name = [];
  request_args = args;
  is_automated = tree;
  is_behavior_tree = tree;
  safe_state = safe;
  fault_entry_hook = hook;
}

abbrev pub router : CallRouter
router = record {
  has_mode_manager = true;
  manual_gating_policy = codes "BLOCK";
  has_actuation_latch = true;
  has_device_loss_latch = true;
  last_dispatch = [];
}

abbrev pub latches : Bool → Bool → Bool → Latches
latches engaged admits lost = record {
  engaged = engaged;
  admits_hooks = admits;
  device_latched = lost;
}

abbrev pub reading : Latches → ℕ → Readings whole_doubles
reading seen now = record {
  idle_mode = manual;
  contention_mode = manual;
  allowed_mode = manual;
  provider_of = λ provider. available;
  inventory = rig;
  before_lock = seen;
  after_lock = seen;
  now = now;
  answer = call_returned [];
}

abbrev pub duty_call : Dispatch whole_doubles
duty_call = record {
  sent_to = codes "sim0";
  sent_device = codes "m";
  sent_name = codes "set_duty";
  sent_spec = set_duty;
  sent_args = forty_unsigned;
}

abbrev pub rpm_call : Dispatch whole_doubles
rpm_call = record {
  sent_to = codes "sim0";
  sent_device = codes "m";
  sent_name = codes "get_rpm";
  sent_spec = get_rpm;
  sent_args = [];
}
