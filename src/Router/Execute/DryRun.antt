-- ===== src/Router/Execute/DryRun.antt =====
-- validate_call against execute_call: a dry run accepts exactly what a dispatch accepts of a request's
-- device, function and arguments.
use anolis.Base.{
  ℕ, ◌≡◌, refl, sym, ap, subst, ◌∙◌, true, some, arith, inl, inr, Text, text_key, Map, ltb,
  assign_sorted, Bool-cases,
}
use anolis.Protocol.{available, Doubles, Value}
use anolis.Registry.{
  FunctionSpec, RegisteredDevice, DeviceRegistry, get_device_copy, get_device_by_handle_copy,
  join_handle,
}
use anolis.Router.{ok, CallRequest, ok-injective, bind_ok, is_ok, ok-is_ok}
use anolis.Router.Selector.{parse_device_handle, resolve_call}
use anolis.Router.Selector.Resolution.{parse_device_handle_exact}
use anolis.Router.Checks.{
  CallRouter, Readings, Latches, find_device, prepare_args, dispatch_key, check_modes,
  check_allowed_modes, check_latches, check_interval, latch_holds, loss_holds,
}
use anolis.Router.Execute.{Dispatch, validate_call, dry_run, gate, admit, execute_call}
use anolis.Router.Execute.Admission.{execute_call-Passed}

module _ {D : Doubles} where
  find_device_ok :
      (inventory : DeviceRegistry D) (provider_id device_id : Text) (device : RegisteredDevice D)
      → find_device inventory provider_id device_id ≡ ok device
      → get_device_by_handle_copy inventory (join_handle provider_id device_id) ≡ some device
  unfolding find_device get_device_copy
  find_device_ok inventory provider_id device_id device h = ground arith

  -- Whatever execute_call sends, validate_call accepts in the same inventory.
  pub sent_validates :
      (r : CallRouter) (q : CallRequest D) (seen : Readings D) (call : Dispatch D)
      → (execute_call r q seen).sent ≡ some call
      → validate_call q seen.inventory ≡ true
  unfolding validate_call dry_run
  sent_validates r q seen call h =
      let passed = execute_call-Passed r q seen call h in
      let joined =
        ((parse_device_handle_exact q.device_handle call.sent_to call.sent_device).0
          passed.handle_parsed).0 in
      let by_handle =
        ap (get_device_by_handle_copy seen.inventory) joined
        ∙ find_device_ok seen.inventory call.sent_to call.sent_device passed.device
            passed.device_found in
      rw
        (
          by_handle, passed.handle_parsed, passed.device_found, passed.function_resolved,
          passed.args_prepared, validate_call, dry_run,
        )
        refl

  safe_check_modes :
      (r : CallRouter) (q : CallRequest D) (seen : Readings D)
      → q.safe_state ≡ true
      → check_modes r q seen ≡ ok tt
  unfolding check_modes
  safe_check_modes r q seen safe = ground arith

  safe_check_latches :
      (r : CallRouter) (q : CallRequest D) (spec : FunctionSpec D) (seen : Latches)
      → q.safe_state ≡ true
      → check_latches r q spec seen ≡ ok tt
  unfolding check_latches latch_holds loss_holds
  safe_check_latches r q spec seen safe = ground arith

  safe_check_allowed_modes :
      (r : CallRouter) (q : CallRequest D) (seen : Readings D) (name : Text) (spec : FunctionSpec D)
      → q.safe_state ≡ true
      → check_allowed_modes r q name spec seen.allowed_mode ≡ ok tt
  unfolding check_allowed_modes
  safe_check_allowed_modes r q seen name spec safe = ground arith

  safe_check_interval :
      (r : CallRouter) (q : CallRequest D) (name : Text) (spec : FunctionSpec D) (now : ℕ)
      → q.safe_state ≡ true
      → (r' : CallRouter) × (check_interval r q name spec now ≡ ok r')
  unfolding check_interval
  safe_check_interval r q name spec now safe = elim (Bool-cases (ltb 0 spec.min_interval_ms)) [
    | inl on ↦ (
      record r {
        last_dispatch =
            assign_sorted (dispatch_key q.device_handle spec.spec_function_id) now r.last_dispatch;
      },
      rw (on, safe, check_interval) refl,
    )
    | inr off ↦ (r, rw (off, check_interval) refl)
  ]

  validate_call-dry_run :
      (q : CallRequest D) (inventory : DeviceRegistry D)
      → validate_call q inventory ≡ true
      → is_ok (dry_run q inventory) ≡ true
  unfolding validate_call
  validate_call-dry_run q inventory h = ground arith

  safe_prepared_sent :
      (r r' : CallRouter) (q : CallRequest D) (seen : Readings D)
      (provider_id device_id name : Text) (device : RegisteredDevice D) (spec : FunctionSpec D)
      (args : Map Text (Value D))
      → q.safe_state ≡ true
      → parse_device_handle q.device_handle ≡ ok (provider_id, device_id)
      → seen.provider_of provider_id ≡ available
      → find_device seen.inventory provider_id device_id ≡ ok device
      → resolve_call device q ≡ ok (name, spec)
      → prepare_args spec q.request_args ≡ ok args
      → check_interval r q name spec seen.now ≡ ok r'
      → (execute_call r q seen).sent
        ≡ some (record {
          sent_to = provider_id;
          sent_device = device_id;
          sent_name = name;
          sent_spec = spec;
          sent_args = args;
        })
  unfolding execute_call gate admit
  safe_prepared_sent r r' q seen provider_id device_id name device spec args safe parsed up found
        resolved prepared kept =
      rw
        (
          safe_check_modes r q seen safe,
          parsed,
          up,
          found,
          resolved,
          safe_check_allowed_modes r q seen name spec safe,
          safe_check_latches r q spec seen.before_lock safe,
          prepared,
          safe_check_latches r q spec seen.after_lock safe,
          kept,
          execute_call,
          gate,
          admit,
        )
        refl

  -- A safe-state call that validate_call accepts is sent whenever its provider is available, whatever
  -- the modes, the latches and the time of the last dispatch are.
  pub safe_call_sent :
      (r : CallRouter) (q : CallRequest D) (seen : Readings D) (provider_id device_id : Text)
      → q.safe_state ≡ true
      → validate_call q seen.inventory ≡ true
      → parse_device_handle q.device_handle ≡ ok (provider_id, device_id)
      → seen.provider_of provider_id ≡ available
      → (call : Dispatch D) × ((execute_call r q seen).sent ≡ some call)
  unfolding dry_run
  safe_call_sent r q seen provider_id device_id safe valid parsed up =
      let (args, run) =
        ok-is_ok (dry_run q seen.inventory) (validate_call-dry_run q seen.inventory valid) in
      let (parsed', p, h1) = bind_ok (parse_device_handle q.device_handle) _ _ run in
      let (device, found, h2) = bind_ok (find_device seen.inventory parsed'.0 parsed'.1) _ _ h1 in
      let (named, resolved, prepared) = bind_ok (resolve_call device q) _ _ h2 in
      let (r', kept) = safe_check_interval r q named.0 named.1 seen.now safe in
      (
        _,
        safe_prepared_sent r r' q seen parsed'.0 parsed'.1 named.0 device named.1 args safe p
            (subst (λ x. seen.provider_of x.0 ≡ available) (ok-injective (sym parsed ∙ p)) up) found
            resolved prepared kept,
      )
