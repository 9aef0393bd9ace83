-- ===== src/SafeState/Ladder.antt =====
-- run_call, run_zero_call and run_ladder. The n-th call of a ladder reads the runtime as `seen n`.
use anolis.Base.{
  ℕ, suc, Bool, true, false, not, ◌&&◌, Option, none, some, List, [], ◌∷◌, if◌then◌else◌, any,
  is_empty, Text, text_eq, text_key, Map, find, to_string,
}
use anolis.Protocol.{Doubles, StatusCode, code_not_found, code_invalid_argument}
use anolis.Registry.{FunctionSpec, RegisteredDevice}
use anolis.Router.{CallError, CallResult}
use anolis.Router.Checks.{CallRouter, Readings}
use anolis.Router.Execute.{Dispatch, execute_call}
use anolis.SafeState.{
  CallConfig, SafeStateConfig, SafeStateKind, no_rung, hooks_rung, setpoints_rung, zero_rung,
  ZeroArgs, cannot_zero, nothing_to_zero, zeroed, build_zero_args, to_call_request,
  actuating_functions_for, planned_safe_state_kind, zero_request,
}

pub data FailureCause : Type 0 where
  cause_run cause_config : FailureCause

-- Why a call of the ladder failed: the router's refusal or answer, or that there is nothing to send.
pub data LadderError : Type 0 where
  refused_or_failed : Option CallError → LadderError
  cannot_zero_argument : Text → LadderError
  no_numeric_argument : LadderError

pub record CallOutcome : Type 0 where
  pub outcome_handle : Text
  pub outcome_function : Text
  pub failure : Option (LadderError × FailureCause)

pub record SkippedAction : Type 0 where
  pub skipped_handle : Text
  pub skipped_function : Text
  pub reason : Text

-- EstopResult, with what reached the providers, in order, and the router after it.
pub record LadderRun (D : Doubles) : Type 0 where
  pub ladder_router : CallRouter
  pub actions : List CallOutcome
  pub skipped : List SkippedAction
  pub dispatched_calls : List (Dispatch D)

abbrev pub is_success : CallOutcome → Bool
is_success o = elim o.failure [ none ↦ true | some _ ↦ false ]

abbrev pub name_or_id : Text → ℕ → Text
unfolding to_string
name_or_id name id = if is_empty name then to_string id else name

abbrev is_config_code : StatusCode → Bool
is_config_code code_not_found = true
is_config_code code_invalid_argument = true
is_config_code _ = false

abbrev pub is_wanted : Option Text → Text → Bool
is_wanted none handle = true
is_wanted (some only_device) handle = text_eq handle only_device

abbrev pub absence : Option (Map Text Text) → Text → Option Text
unfolding find
absence none handle = none
absence (some absent) handle = find handle absent

abbrev pub is_no_rung : SafeStateKind → Bool
is_no_rung no_rung = true
is_no_rung _ = false

module _ {D : Doubles} where
  unfoldable pub cause_of : CallResult D → FailureCause
  cause_of res =
      if not res.dispatched && is_config_code res.status_code then cause_config else cause_run

  abbrev pub outcome_of : Text → Text → CallResult D → CallOutcome
  unfolding cause_of
  outcome_of handle function res = record {
    outcome_handle = handle;
    outcome_function = function;
    failure =
        if res.success then none else some (refused_or_failed res.error_message, cause_of res);
  }

  -- The execution of one request, if there was one, and its outcome.
  unfoldable pub run_call :
      CallRouter → Readings D → CallConfig D → CallOutcome × (CallRouter × Option (Dispatch D))
  unfolding execute_call to_call_request outcome_of name_or_id
  run_call r seen call =
      let e = execute_call r (to_call_request call) seen in
      (
        outcome_of call.call_handle (name_or_id call.call_function_name call.call_function_id)
            e.result,
        (e.router, e.sent),
      )

  abbrev zero_refused :
      CallRouter → Text → Text → LadderError → CallOutcome × (CallRouter × Option (Dispatch D))
  zero_refused r handle function e = (
    record {
      outcome_handle = handle;
      outcome_function = function;
      failure = some (e, cause_config);
    },
    (r, none),
  )

  -- run_zero_call with what build_zero_args gives.
  unfoldable pub send_zeros :
      CallRouter
      → Readings D
      → Text
      → FunctionSpec D
      → ZeroArgs D
      → CallOutcome × (CallRouter × Option (Dispatch D))
  unfolding execute_call outcome_of name_or_id
  send_zeros r seen handle spec (cannot_zero name) =
      zero_refused r handle (name_or_id spec.spec_function_name spec.spec_function_id)
        (cannot_zero_argument name)
  send_zeros r seen handle spec nothing_to_zero =
      zero_refused r handle (name_or_id spec.spec_function_name spec.spec_function_id)
        no_numeric_argument
  send_zeros r seen handle spec (zeroed args) =
      let e = execute_call r (zero_request true handle spec args) seen in
      (
        outcome_of handle (name_or_id spec.spec_function_name spec.spec_function_id) e.result,
        (e.router, e.sent),
      )

  unfoldable pub run_zero_call :
      CallRouter
      → Readings D
      → Text
      → FunctionSpec D
      → CallOutcome × (CallRouter × Option (Dispatch D))
  unfolding build_zero_args send_zeros
  run_zero_call r seen handle spec = send_zeros r seen handle spec (build_zero_args spec)

  -- A call that ran, in front of the rest of the ladder.
  abbrev pub with_call :
      CallOutcome × (CallRouter × Option (Dispatch D)) → LadderRun D → LadderRun D
  with_call (outcome, (_, sent)) rest = record rest {
    actions = outcome ∷ rest.actions;
    dispatched_calls = elim sent [
      | none ↦ rest.dispatched_calls
      | some call ↦ call ∷ rest.dispatched_calls
    ];
  }

  abbrev pub nothing_run : CallRouter → LadderRun D
  nothing_run r = record { ladder_router = r; actions = []; skipped = []; dispatched_calls = [] }

  -- The declared calls of a rung, from the n-th call of the ladder on.
  unfoldable pub run_declared :
      Option Text
      → Option (Map Text Text)
      → (ℕ → Readings D)
      → CallRouter
      → ℕ
      → List (CallConfig D)
      → LadderRun D
  unfolding run_call absence name_or_id
  run_declared only_device absent seen r n [] = nothing_run r
  run_declared only_device absent seen r n (call ∷ calls) =
      let passed = run_declared only_device absent seen r n calls in
      let ran = run_call r (seen n) call in
      let rest = run_declared only_device absent seen ran.1.0 (suc n) calls in
      if not (is_wanted only_device call.call_handle)
      then passed
      else elim (absence absent call.call_handle) [
        | some why ↦ record passed {
          skipped =
              record {
                skipped_handle = call.call_handle;
                skipped_function = name_or_id call.call_function_name call.call_function_id;
                reason = why;
              }
              ∷ passed.skipped;
        }
        | none ↦ with_call ran rest
      ]

  unfoldable pub run_zeros :
      Option Text
      → Option (Map Text Text)
      → (ℕ → Readings D)
      → CallRouter
      → ℕ
      → List (Text × FunctionSpec D)
      → LadderRun D
  unfolding run_zero_call absence
  run_zeros only_device absent seen r n [] = nothing_run r
  run_zeros only_device absent seen r n ((handle, spec) ∷ functions) =
      let passed = run_zeros only_device absent seen r n functions in
      let ran = run_zero_call r (seen n) handle spec in
      let rest = run_zeros only_device absent seen ran.1.0 (suc n) functions in
      if not (is_wanted only_device handle) then passed else elim (absence absent handle) [
        | some why ↦ record passed {
          skipped =
              record {
                skipped_handle = handle;
                skipped_function = spec.spec_function_name;
                reason = why;
              }
              ∷ passed.skipped;
        }
        | none ↦ with_call ran rest
      ]

  unfoldable pub run_rung :
      List (RegisteredDevice D)
      → SafeStateConfig D
      → Option Text
      → Option (Map Text Text)
      → (ℕ → Readings D)
      → CallRouter
      → SafeStateKind
      → LadderRun D
  unfolding run_declared run_zeros actuating_functions_for
  run_rung devices safety only_device absent seen r hooks_rung =
      run_declared only_device absent seen r 0 safety.hooks
  run_rung devices safety only_device absent seen r setpoints_rung =
      run_declared only_device absent seen r 0 safety.setpoints
  run_rung devices safety only_device absent seen r zero_rung =
      run_zeros only_device absent seen r 0 (actuating_functions_for devices)
  run_rung devices safety only_device absent seen r no_rung = nothing_run r

  abbrev pub is_achieved : SafeStateKind → LadderRun D → Bool
  is_achieved kind run =
      not (is_no_rung kind)
      && (not (is_empty run.actions) && not (any (λ a. not (is_success a)) run.actions))

  -- What the ladder ran, and safe_state_achieved.
  unfoldable pub run_ladder :
      List (RegisteredDevice D)
      → SafeStateConfig D
      → Option Text
      → Option (Map Text Text)
      → (ℕ → Readings D)
      → CallRouter
      → SafeStateKind × (LadderRun D × Bool)
  unfolding planned_safe_state_kind run_rung
  run_ladder devices safety only_device absent seen r =
      let kind = planned_safe_state_kind devices safety in
      let run = run_rung devices safety only_device absent seen r kind in
      (kind, (run, is_achieved kind run))
