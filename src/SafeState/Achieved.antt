-- ===== src/SafeState/Achieved.antt =====
-- What an achieved safe state means.
use anolis.Base.{
  ℕ, suc, ◌≡◌, ◌≢◌, refl, sym, ap, subst, ◌∙◌, Bool, true, false, not, ◌&&◌, Option, none, some,
  List, [], ◌∷◌, arith, any, is_empty, map, Text,
}
use anolis.Protocol.{Doubles}
use anolis.Registry.{FunctionSpec, RegisteredDevice}
use anolis.Router.{Result, ok, err, CallRequest}
use anolis.Router.Checks.{CallRouter, Readings}
use anolis.Router.Execute.{Dispatch, execute_call, after_gate, gate}
use anolis.SafeState.{
  CallConfig, SafeStateConfig, SafeStateKind, no_rung, hooks_rung, setpoints_rung, zero_rung,
  ZeroArgs, zeroed, build_zero_args, cannot_zero, nothing_to_zero, to_call_request,
  actuating_functions_for, planned_safe_state_kind, zero_request,
}
use anolis.SafeState.Delivered.{
  DeliveredCall, DeliveredZero, to_call_request-Delivered, zero_request-Delivered,
}
use anolis.SafeState.Ladder.{
  CallOutcome, LadderRun, is_success, is_no_rung, run_call, run_zero_call, send_zeros, with_call,
  run_declared, run_zeros, run_rung, run_ladder,
}

three_false :
    (a b c : Bool) → (not a && (not b && not c)) ≡ true → (a ≡ false) × ((b ≡ false) × (c ≡ false))
three_false a b c e = (ground (arith, e), (ground (arith, e), ground (arith, e)))

module _ {D : Doubles} where
  -- The call was sent and delivers what it should, or it failed.
  abbrev SentOrFailed :
      (Dispatch D → Type 0) → CallOutcome × (CallRouter × Option (Dispatch D)) → Type 0
  SentOrFailed Delivers ran =
      is_success ran.0 ≡ true → (call : Dispatch D) × ((ran.1.1 ≡ some call) × Delivers call)

  -- One dispatch for each, in order.
  abbrev pub Pairwise :
      {A : Type 0} → (A → Dispatch D → Type 0) → List A → List (Dispatch D) → Type 0
  Pairwise P [] [] = Unit
  Pairwise P (c ∷ cs) (d ∷ ds) = P c d × Pairwise P cs ds
  Pairwise P _ _ = ⊥

  after_gate_sent :
      (r : CallRouter) (seen : Readings D) (g : Result (CallRouter × Dispatch D))
      → (after_gate seen.answer r g).result.success ≡ true
      → (call : Dispatch D) × ((after_gate seen.answer r g).sent ≡ some call)
  after_gate_sent r seen (err c e) h = absurd (ground (arith, h))
  after_gate_sent r seen (ok (r', call)) h = (call, refl)

  execute_call_sent :
      (r : CallRouter) (q : CallRequest D) (seen : Readings D)
      → (execute_call r q seen).result.success ≡ true
      → (call : Dispatch D) × ((execute_call r q seen).sent ≡ some call)
  unfolding execute_call
  execute_call_sent r q seen h = after_gate_sent r seen (gate r q seen) h

  run_call-SentOrFailed :
      (r : CallRouter) (seen : Readings D) (call : CallConfig D)
      → SentOrFailed (DeliveredCall call) (run_call r seen call)
  unfolding run_call
  run_call-SentOrFailed r seen call h =
      let (sent, e) = execute_call_sent r (to_call_request call) seen (ground (arith, h)) in
      (sent, (e, to_call_request-Delivered r call seen sent e))

  send_zeros-SentOrFailed :
      (r : CallRouter) (seen : Readings D) (handle : Text) (spec : FunctionSpec D) (z : ZeroArgs D)
      → build_zero_args spec ≡ z
      → SentOrFailed (DeliveredZero (handle, spec)) (send_zeros r seen handle spec z)
  unfolding send_zeros
  send_zeros-SentOrFailed r seen handle spec (cannot_zero name) z h = absurd (ground (arith, h))
  send_zeros-SentOrFailed r seen handle spec nothing_to_zero z h = absurd (ground (arith, h))
  send_zeros-SentOrFailed r seen handle spec (zeroed args) z h =
      let (sent, e) =
        execute_call_sent r (zero_request true handle spec args) seen (ground (arith, h)) in
      (sent, (e, zero_request-Delivered r handle spec args seen sent z e))

  send_zeros-handle :
      (r : CallRouter) (seen : Readings D) (handle : Text) (spec : FunctionSpec D) (z : ZeroArgs D)
      → (send_zeros r seen handle spec z).0.outcome_handle ≡ handle
  unfolding send_zeros
  send_zeros-handle r seen handle spec (cannot_zero name) = refl
  send_zeros-handle r seen handle spec nothing_to_zero = refl
  send_zeros-handle r seen handle spec (zeroed args) = refl

  -- The ladder acted on these devices, in order; and if nothing failed, each call was delivered.
  record Ran {A : Type 0} (Delivers : A → Dispatch D → Type 0) (calls : List A)
      (handles : List Text) (run : LadderRun D) : Type 0 where
    acted : map CallOutcome.outcome_handle run.actions ≡ handles
    sent_all :
        any (λ a. not (is_success a)) run.actions ≡ false
        → Pairwise Delivers calls run.dispatched_calls

  with_call-Ran :
      {A : Type 0} (Delivers : A → Dispatch D → Type 0) (call : A) (calls : List A) (handle : Text)
      (handles : List Text) (ran : CallOutcome × (CallRouter × Option (Dispatch D)))
      (rest : LadderRun D)
      → ran.0.outcome_handle ≡ handle
      → SentOrFailed (Delivers call) ran
      → Ran Delivers calls handles rest
      → Ran Delivers (call ∷ calls) (handle ∷ handles) (with_call ran rest)
  with_call-Ran Delivers call calls handle handles (outcome, (r, sent)) rest same p k = record {
    acted =
        ap (λ h. h ∷ map CallOutcome.outcome_handle rest.actions) same
        ∙ ap (λ hs. handle ∷ hs) k.acted;
    sent_all = λ e.
        let (dispatch, (was_sent, delivered)) = p (ground (arith, e)) in
        subst
          (λ o.
            Pairwise Delivers (call ∷ calls) (with_call (outcome, (r, o)) rest).dispatched_calls)
          (sym was_sent) (delivered, k.sent_all (ground (arith, e)));
  }

  run_declared-Ran :
      (seen : ℕ → Readings D) (calls : List (CallConfig D)) (r : CallRouter) (n : ℕ)
      → Ran DeliveredCall calls
          (map (λ call. call.call_handle) calls)
          (run_declared none none seen r n calls)
  unfolding run_declared run_call
  run_declared-Ran seen [] r n = record { acted = refl; sent_all = λ _. tt }
  run_declared-Ran seen (call ∷ calls) r n =
      with_call-Ran DeliveredCall call calls call.call_handle (map (λ call. call.call_handle) calls)
        (run_call r (seen n) call) _ refl (run_call-SentOrFailed r (seen n) call)
        (run_declared-Ran seen calls (run_call r (seen n) call).1.0 (suc n))

  run_zeros-Ran :
      (seen : ℕ → Readings D) (functions : List (Text × FunctionSpec D)) (r : CallRouter) (n : ℕ)
      → Ran DeliveredZero functions
          (map (λ f. f.0) functions)
          (run_zeros none none seen r n functions)
  unfolding run_zeros run_zero_call
  run_zeros-Ran seen [] r n = record { acted = refl; sent_all = λ _. tt }
  run_zeros-Ran seen ((handle, spec) ∷ functions) r n =
      with_call-Ran DeliveredZero (handle, spec) functions handle (map (λ f. f.0) functions)
        (run_zero_call r (seen n) handle spec) _
        (send_zeros-handle r (seen n) handle spec (build_zero_args spec))
        (send_zeros-SentOrFailed r (seen n) handle spec (build_zero_args spec) refl)
        (run_zeros-Ran seen functions (run_zero_call r (seen n) handle spec).1.0 (suc n))

  -- The devices that a rung's calls name, in order.
  unfoldable pub rung_handles :
      List (RegisteredDevice D) → SafeStateConfig D → SafeStateKind → List Text
  unfolding actuating_functions_for
  rung_handles devices safety hooks_rung = map (λ call. call.call_handle) safety.hooks
  rung_handles devices safety setpoints_rung = map (λ call. call.call_handle) safety.setpoints
  rung_handles devices safety zero_rung = map (λ f. f.0) (actuating_functions_for devices)
  rung_handles devices safety no_rung = []

  -- What the dispatches of a rung deliver.
  unfoldable pub RungDelivered :
      List (RegisteredDevice D) → SafeStateConfig D → SafeStateKind → List (Dispatch D) → Type 0
  unfolding actuating_functions_for
  RungDelivered devices safety hooks_rung ds = Pairwise DeliveredCall safety.hooks ds
  RungDelivered devices safety setpoints_rung ds = Pairwise DeliveredCall safety.setpoints ds
  RungDelivered devices safety zero_rung ds =
      Pairwise DeliveredZero (actuating_functions_for devices) ds
  RungDelivered devices safety no_rung ds = Unit

  run_rung-Ran :
      (devices : List (RegisteredDevice D)) (safety : SafeStateConfig D) (seen : ℕ → Readings D)
      (r : CallRouter) (kind : SafeStateKind)
      → (map CallOutcome.outcome_handle (run_rung devices safety none none seen r kind).actions
          ≡ rung_handles devices safety kind)
        × (any (λ a. not (is_success a)) (run_rung devices safety none none seen r kind).actions
              ≡ false
            → RungDelivered devices safety kind
                (run_rung devices safety none none seen r kind).dispatched_calls)
  unfolding run_rung rung_handles RungDelivered
  run_rung-Ran devices safety seen r hooks_rung =
      let ran = run_declared-Ran seen safety.hooks r 0 in (ran.acted, ran.sent_all)
  run_rung-Ran devices safety seen r setpoints_rung =
      let ran = run_declared-Ran seen safety.setpoints r 0 in (ran.acted, ran.sent_all)
  run_rung-Ran devices safety seen r zero_rung =
      let ran = run_zeros-Ran seen (actuating_functions_for devices) r 0 in
      (ran.acted, ran.sent_all)
  run_rung-Ran devices safety seen r no_rung = (refl, λ _. tt)

  -- When a ladder over all devices says that the safe state is achieved, a rung was planned, each of its
  -- calls was made, in order, on the device that it names, none failed, and there was a call. What was
  -- dispatched is one call for each of the rung, in order: it reached the device and the function that
  -- the hook, the setpoint or the actuating function names, with the declared arguments, or with none but
  -- zeros on the zero rung.
  pub achieved_reached_all :
      (devices : List (RegisteredDevice D)) (safety : SafeStateConfig D) (seen : ℕ → Readings D)
      (r : CallRouter)
      → (run_ladder devices safety none none seen r).1.1 ≡ true
      → (planned_safe_state_kind devices safety ≢ no_rung)
        × ((map CallOutcome.outcome_handle (run_ladder devices safety none none seen r).1.0.actions
              ≡ rung_handles devices safety (planned_safe_state_kind devices safety))
            × ((any
                    (λ a. not (is_success a))
                    (run_ladder devices safety none none seen r).1.0.actions
                  ≡ false)
                × (RungDelivered devices safety
                      (planned_safe_state_kind devices safety)
                      (run_ladder devices safety none none seen r).1.0.dispatched_calls
                    × (is_empty (run_ladder devices safety none none seen r).1.0.actions ≡ false))))
  unfolding run_ladder
  achieved_reached_all devices safety seen r h =
      let ran = run_rung-Ran devices safety seen r (planned_safe_state_kind devices safety) in
      let run = run_rung devices safety none none seen r (planned_safe_state_kind devices safety) in
      let (planned, (acted, none_failed)) =
        three_false (is_no_rung (planned_safe_state_kind devices safety)) (is_empty run.actions)
          (any (λ a. not (is_success a)) run.actions) h in
      (
        (λ no_plan. ground (arith, planned, no_plan)),
        (ran.0, (none_failed, (ran.1 none_failed, acted))),
      )
