-- ===== src/Router/Execute.antt =====
-- execute_call as the chain of its checks, latch_refuses and validate_call.
pub mod Admission
pub mod Latched
pub mod Interval
pub mod DryRun
pub mod Prepared
use anolis.Base.{
  ℕ, ◌-◌, ◌*◌, ◌/◌, Bool, true, false, not, ◌&&◌, ◌||◌, Option, none, some, List, [], ◌∷◌, ◌++◌,
  if◌then◌else◌, ltb, Text, codes, text_eq, text_key, Map, find, assign_sorted, is_empty, any, map,
  to_string, to_upper,
}
use anolis.Protocol.{
  ProviderState, no_provider, unavailable, available, Doubles, StatusCode, code_ok, code_not_found,
  code_failed_precondition, code_unavailable, Value,
}
use anolis.Registry.{
  FunctionSpec, RegisteredDevice, DeviceRegistry, get_device_copy, get_device_by_handle_copy,
  is_actuating,
}
use anolis.Mode.{RuntimeMode, auto, idle, mode_eq, mode_to_string}
use anolis.Router.{
  CallRequest, CallError, blocked_in_idle, blocked_in_auto, provider_not_found,
  provider_not_available, device_not_found, mode_not_allowed, latched_by_estop, not_rearmed,
  too_soon, provider_failed, Result, ok, err, is_ok, CallResult, ◌>>=◌, ◌>>◌,
}
use anolis.Router.Arguments.{coerce_arguments, validate_arguments}
use anolis.Router.Selector.{parse_device_handle, resolve_call}
use anolis.Router.Checks.{
  CallRouter, set_mode_manager, set_actuation_latch, set_device_loss_latch, Latches, Answer,
  Readings, check, dispatch_key, remaining_ms, check_provider, mode_name, check_modes, find_device,
  mode_allows, check_allowed_modes, latch_holds, loss_holds, check_latches, prepare_args,
  check_interval, call_failed, call_returned,
}

-- What goes to the provider.
pub record Dispatch (D : Doubles) : Type 0 where
  pub sent_to : Text
  pub sent_device : Text
  pub sent_name : Text
  pub sent_spec : FunctionSpec D
  pub sent_args : Map Text (Value D)

pub record Execution (D : Doubles) : Type 0 where
  pub router : CallRouter
  pub result : CallResult D
  pub sent : Option (Dispatch D)
  pub polled : Bool

module _ {D : Doubles} where
  -- Everything up to the call of the provider, for a device and a function that were found.
  unfoldable pub admit :
      CallRouter
      → CallRequest D
      → Readings D
      → Text
      → Text
      → Text
      → FunctionSpec D
      → Result (CallRouter × Dispatch D)
  unfolding check_allowed_modes check_latches prepare_args check_interval
  admit r request seen provider_id device_id name spec =
      check_allowed_modes r request name spec seen.allowed_mode
      >> check_latches r request spec seen.before_lock
      >> (prepare_args spec request.request_args >>= λ args.
          check_latches r request spec seen.after_lock
          >> (check_interval r request name spec seen.now >>= λ r'. ok (
            r',
            record {
              sent_to = provider_id;
              sent_device = device_id;
              sent_name = name;
              sent_spec = spec;
              sent_args = args;
            },
          )))

  -- The checks from the start of execute_call on.
  unfoldable pub gate : CallRouter → CallRequest D → Readings D → Result (CallRouter × Dispatch D)
  unfolding check_modes parse_device_handle find_device resolve_call admit
  gate r request seen =
      check_modes r request seen
      >> (parse_device_handle request.device_handle >>= λ parsed.
          check_provider parsed.0 (seen.provider_of parsed.0)
          >> (find_device seen.inventory parsed.0 parsed.1 >>= λ device.
              resolve_call device request >>= λ found.
              admit r request seen parsed.0 parsed.1 found.0 found.1))

  abbrev pub refusal : StatusCode → CallError → CallResult D
  refusal code error = record {
    success = false;
    error_message = some error;
    results = [];
    status_code = code;
    dispatched = false;
  }

  abbrev pub answered : Answer D → CallResult D
  answered (call_failed error code) = record {
    success = false;
    error_message = some (provider_failed error);
    results = [];
    status_code = code;
    dispatched = true;
  }
  answered (call_returned results) = record {
    success = true;
    error_message = none;
    results = results;
    status_code = code_ok;
    dispatched = true;
  }

  abbrev pub is_returned : Answer D → Bool
  is_returned (call_failed _ _) = false
  is_returned (call_returned _) = true

  abbrev pub after_gate : Answer D → CallRouter → Result (CallRouter × Dispatch D) → Execution D
  after_gate answer r (err code error) = record {
    router = r;
    result = refusal code error;
    sent = none;
    polled = false;
  }
  after_gate answer r (ok (r', call)) = record {
    router = r';
    result = answered answer;
    sent = some call;
    polled = is_returned answer;
  }

  unfoldable pub execute_call : CallRouter → CallRequest D → Readings D → Execution D
  unfolding gate
  execute_call r request seen = after_gate seen.answer r (gate r request seen)

  unfoldable pub latch_refuses : CallRouter → CallRequest D → DeviceRegistry D → Latches → Bool
  unfolding latch_holds parse_device_handle find_device resolve_call
  latch_refuses r request inventory seen =
      if request.safe_state || not r.has_actuation_latch || not seen.engaged
      then false
      else elim (parse_device_handle request.device_handle) [
        | err _ _ ↦ false
        | ok (provider_id, device_id) ↦ elim (find_device inventory provider_id device_id) [
          | err _ _ ↦ false
          | ok device ↦ elim (resolve_call device request) [
            | err _ _ ↦ false
            | ok (name, spec) ↦ latch_holds r request spec seen
          ]
        ]
      ]

  -- The error texts of a missing device differ from those of execute_call and are not told apart.
  unfoldable pub dry_run : CallRequest D → DeviceRegistry D → Result (Map Text (Value D))
  unfolding parse_device_handle find_device resolve_call prepare_args
  dry_run request inventory = parse_device_handle request.device_handle >>= λ parsed.
      find_device inventory parsed.0 parsed.1 >>= λ device.
      resolve_call device request >>= λ found. prepare_args found.1 request.request_args

  unfoldable pub validate_call : CallRequest D → DeviceRegistry D → Bool
  unfolding get_device_by_handle_copy dry_run
  validate_call request inventory =
      elim (get_device_by_handle_copy inventory request.device_handle) [
        | none ↦ false
        | some _ ↦ is_ok (dry_run request inventory)
      ]
