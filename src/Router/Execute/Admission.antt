-- ===== src/Router/Execute/Admission.antt =====
-- What a dispatched call has passed: the chain of checks of execute_call, read backwards.
use anolis.Base.{◌≡◌, refl, ap, subst, ◌∙◌, Bool, true, false, some, some-injective, Text}
use anolis.Protocol.{ProviderState, available, unavailable, no_provider, Doubles, StatusCode}
use anolis.Registry.{FunctionSpec, RegisteredDevice}
use anolis.Router.{Result, ok, err, CallRequest, CallError, bind_ok, ok-injective}
use anolis.Router.Selector.{parse_device_handle, resolve_call}
use anolis.Router.Checks.{
  CallRouter, Readings, check, check_modes, check_provider, find_device, check_allowed_modes,
  check_latches, prepare_args, check_interval,
}
use anolis.Router.Execute.{Dispatch, admit, gate, after_gate, execute_call}

pub check_ok :
    (holds : Bool) (c : StatusCode) (e : CallError) (u : Unit {0})
    → check holds c e ≡ ok u
    → holds ≡ false
check_ok true c e u h = cc
check_ok false c e u h = refl

check_provider_ok :
    (provider_id : Text) (p : ProviderState) (u : Unit {0})
    → check_provider provider_id p ≡ ok u
    → p ≡ available
check_provider_ok provider_id available u h = refl
check_provider_ok provider_id no_provider u h = cc
check_provider_ok provider_id unavailable u h = cc

module _ {D : Doubles} where
  -- A call that reached the provider, with the parts of its handle, its device and its function.
  pub record Passed (r : CallRouter) (q : CallRequest D) (seen : Readings D) (r' : CallRouter)
      (call : Dispatch D) : Type 0 where
    pub device : RegisteredDevice D
    pub modes_passed : check_modes r q seen ≡ ok tt
    pub handle_parsed : parse_device_handle q.device_handle ≡ ok (call.sent_to, call.sent_device)
    pub provider_available : seen.provider_of call.sent_to ≡ available
    pub device_found : find_device seen.inventory call.sent_to call.sent_device ≡ ok device
    pub function_resolved : resolve_call device q ≡ ok (call.sent_name, call.sent_spec)
    pub mode_allowed :
        check_allowed_modes r q call.sent_name call.sent_spec seen.allowed_mode ≡ ok tt
    pub latches_before : check_latches r q call.sent_spec seen.before_lock ≡ ok tt
    pub args_prepared : prepare_args call.sent_spec q.request_args ≡ ok call.sent_args
    pub latches_after : check_latches r q call.sent_spec seen.after_lock ≡ ok tt
    pub interval_kept : check_interval r q call.sent_name call.sent_spec seen.now ≡ ok r'

  admit-Passed :
      (r : CallRouter) (q : CallRequest D) (seen : Readings D) (r' : CallRouter) (call : Dispatch D)
      (provider_id device_id name : Text) (spec : FunctionSpec D) (device : RegisteredDevice D)
      → check_modes r q seen ≡ ok tt
      → parse_device_handle q.device_handle ≡ ok (provider_id, device_id)
      → seen.provider_of provider_id ≡ available
      → find_device seen.inventory provider_id device_id ≡ ok device
      → resolve_call device q ≡ ok (name, spec)
      → admit r q seen provider_id device_id name spec ≡ ok (r', call)
      → Passed r q seen r' call
  unfolding admit
  admit-Passed r q seen r' call provider_id device_id name spec device modes parse provider found
        resolved h =
      let (u6, allowed, h6) = bind_ok (check_allowed_modes r q name spec seen.allowed_mode) _ _ h in
      let (u7, before, h7) = bind_ok (check_latches r q spec seen.before_lock) _ _ h6 in
      let (args, prepared, h8) = bind_ok (prepare_args spec q.request_args) _ _ h7 in
      let (u9, after, h9) = bind_ok (check_latches r q spec seen.after_lock) _ _ h8 in
      let (router, kept, h10) = bind_ok (check_interval r q name spec seen.now) _ _ h9 in
      subst (λ p. Passed r q seen p.0 p.1) (ok-injective h10)
        (record {
          device = device;
          modes_passed = modes;
          handle_parsed = parse;
          provider_available = provider;
          device_found = found;
          function_resolved = resolved;
          mode_allowed = allowed;
          latches_before = before;
          args_prepared = prepared;
          latches_after = after;
          interval_kept = kept;
        })

  gate-Passed :
      (r : CallRouter) (q : CallRequest D) (seen : Readings D) (r' : CallRouter) (call : Dispatch D)
      → gate r q seen ≡ ok (r', call)
      → Passed r q seen r' call
  unfolding gate
  gate-Passed r q seen r' call h =
      let (u1, modes, h1) = bind_ok (check_modes r q seen) _ _ h in
      let (parsed, parse, h2) = bind_ok (parse_device_handle q.device_handle) _ _ h1 in
      let (u3, provider, h3) =
        bind_ok (check_provider parsed.0 (seen.provider_of parsed.0)) _ _ h2 in
      let (device, found, h4) = bind_ok (find_device seen.inventory parsed.0 parsed.1) _ _ h3 in
      let (named, resolved, h5) = bind_ok (resolve_call device q) _ _ h4 in
      admit-Passed r q seen r' call parsed.0 parsed.1 named.0 named.1 device modes parse
        (check_provider_ok parsed.0 (seen.provider_of parsed.0) u3 provider) found resolved h5

  -- A call that is sent has passed every check, and the router after it is the one they leave.
  pub execute_call-Passed :
      (r : CallRouter) (q : CallRequest D) (seen : Readings D) (call : Dispatch D)
      → (execute_call r q seen).sent ≡ some call
      → Passed r q seen (execute_call r q seen).router call
  unfolding execute_call
  execute_call-Passed r q seen call h = go (gate r q seen) refl h
    where
      go :
          (g : Result (CallRouter × Dispatch D))
          → gate r q seen ≡ g
          → (after_gate seen.answer r g).sent ≡ some call
          → Passed r q seen (after_gate seen.answer r g).router call
      go (ok (r', call')) e h =
          gate-Passed r q seen r' call (e ∙ ap (λ c. ok (r', c)) (some-injective _ _ h))
      go (err c x) e h = cc
