-- ===== src/Router/Execute/Latched.antt =====
-- What the latches and the modes keep from the providers.
use anolis.Base.{◌≡◌, ◌≢◌, true, false, none, some, Option-cases, arith, inl, inr, ◌⊎◌}
use anolis.Protocol.{Doubles, code_failed_precondition}
use anolis.Registry.{FunctionSpec, is_actuating}
use anolis.Router.{ok, CallRequest, bind_ok, latched_by_estop}
use anolis.Router.Checks.{
  CallRouter, Readings, Latches, check, check_latches, latch_holds, loss_holds,
}
use anolis.Router.Execute.{Dispatch, latch_refuses, execute_call}
use anolis.Router.Execute.Admission.{check_ok, execute_call-Passed}

module _ {D : Doubles} where
  check_latches_ok :
      (r : CallRouter) (q : CallRequest D) (spec : FunctionSpec D) (seen : Latches)
      → check_latches r q spec seen ≡ ok tt
      → (latch_holds r q spec seen ≡ false) × (loss_holds r q spec seen ≡ false)
  unfolding check_latches
  check_latches_ok r q spec seen h =
      let (u, estop, h1) =
        bind_ok (check (latch_holds r q spec seen) code_failed_precondition latched_by_estop) _ _
          h in
      (check_ok _ _ _ _ estop, check_ok _ _ _ _ h1)

  refused_not_sent :
      (r : CallRouter) (q : CallRequest D) (seen : Readings D) (call : Dispatch D)
      → (execute_call r q seen).sent ≡ some call
      → latch_refuses r q seen.inventory seen.before_lock ≢ true
  unfolding latch_refuses
  refused_not_sent r q seen call h refuses =
      let passed = execute_call-Passed r q seen call h in
      let held = (check_latches_ok r q call.sent_spec seen.before_lock passed.latches_before).0 in
      let parsed = passed.handle_parsed in
      let found = passed.device_found in let resolved = passed.function_resolved in ground arith

  -- Once the e-stop latch is engaged when the provider's lock is held, what reaches a provider is a
  -- safe-state call, a call of a function declared READ, or a FAULT-entry hook that the latch admits.
  pub latched_sends_nothing :
      (r : CallRouter) (q : CallRequest D) (seen : Readings D) (call : Dispatch D)
      → (execute_call r q seen).sent ≡ some call
      → r.has_actuation_latch ≡ true
      → seen.after_lock.engaged ≡ true
      → (q.safe_state ≡ true)
        ⊎ (is_actuating call.sent_spec ≡ false)
        ⊎ ((q.fault_entry_hook ≡ true) × (seen.after_lock.admits_hooks ≡ true))
  unfolding latch_holds
  latched_sends_nothing r q seen call h has engaged =
      let passed = execute_call-Passed r q seen call h in
      let open_latch =
        (check_latches_ok r q call.sent_spec seen.after_lock passed.latches_after).0 in
      ground arith

  -- A behaviour tree's call reaches a device whose loss latch is set when the provider's lock is
  -- held only as a safe-state call or by a function declared READ.
  pub lost_device_not_driven :
      (r : CallRouter) (q : CallRequest D) (seen : Readings D) (call : Dispatch D)
      → (execute_call r q seen).sent ≡ some call
      → r.has_device_loss_latch ≡ true
      → q.is_behavior_tree ≡ true
      → seen.after_lock.device_latched ≡ true
      → (q.safe_state ≡ true) ⊎ (is_actuating call.sent_spec ≡ false)
  unfolding loss_holds
  lost_device_not_driven r q seen call h has tree latched =
      let passed = execute_call-Passed r q seen call h in
      let open_latch =
        (check_latches_ok r q call.sent_spec seen.after_lock passed.latches_after).1 in
      ground arith

  -- When latch_refuses reports a refusal for the latches and the inventory that a call then reads,
  -- execute_call sends nothing.
  pub latch_refuses-execute_call :
      (r : CallRouter) (q : CallRequest D) (seen : Readings D)
      → latch_refuses r q seen.inventory seen.before_lock ≡ true
      → (execute_call r q seen).sent ≡ none
  latch_refuses-execute_call r q seen h = elim (Option-cases (execute_call r q seen).sent) [
    | inl nothing ↦ nothing
    | inr (call, sent) ↦ absurd (refused_not_sent r q seen call sent h)
  ]
