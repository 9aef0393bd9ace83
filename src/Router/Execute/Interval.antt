-- ===== src/Router/Execute/Interval.antt =====
-- The rate limit: min_interval_ms between two dispatches of one function of one device.
use anolis.Base.{
  ℕ, ◌-◌, ◌/◌, ◌≤◌, ◌<◌, ◌≡◌, refl, sym, subst, true, false, none, some, Option-cases, arith, List,
  [], ◌∷◌, All, Text, text_key, text_eq, text_eq_iff, find, assign_sorted, find-assign_sorted, inl,
  inr, ◌⊎◌, ltb, Bool-cases,
}
use anolis.Protocol.{Doubles}
use anolis.Registry.{FunctionSpec}
use anolis.Router.{Result, ok, err, CallRequest}
use anolis.Router.Checks.{CallRouter, Readings, Answer, check_interval, dispatch_key, remaining_ms}
use anolis.Router.Execute.{Dispatch, gate, after_gate, execute_call}
use anolis.Router.Execute.Admission.{execute_call-Passed}

-- The time of the last recorded dispatch under a key is at least t.
abbrev pub DispatchedSince : Text → ℕ → CallRouter → Type 0
DispatchedSince key t r = (last : ℕ) × (find key r.last_dispatch ≡ some last) × (t ≤ last)

remaining_none :
    (interval now last : ℕ)
    → remaining_ms interval now (some last) ≡ none
    → interval ≤ (now - last) / 1000000
unfolding remaining_ms
remaining_none interval now last h = ground arith

recorded-DispatchedSince :
    (r : CallRouter) (key key' : Text) (t now : ℕ)
    → t ≤ now
    → (key' ≡ key) ⊎ DispatchedSince key t r
    → DispatchedSince key t (record r { last_dispatch = assign_sorted key' now r.last_dispatch })
recorded-DispatchedSince r key key' t now le h = elim (Bool-cases (text_eq key' key)) [
  | inl same ↦ (now, rw (find-assign_sorted key' key now r.last_dispatch, same) refl, le)
  | inr other ↦ elim h [
    | inl e ↦ absurd (ground (arith, text_eq_iff key' key))
    | inr (last, found, since) ↦
        (last, rw (find-assign_sorted key' key now r.last_dispatch, other) found, since)
  ]
]

module _ {D : Doubles} where
  abbrev key_of : CallRequest D → FunctionSpec D → Text
  unfolding dispatch_key
  key_of q spec = dispatch_key q.device_handle spec.spec_function_id

  -- The two ways through check_interval.
  check_interval_ok :
      (r r' : CallRouter) (q : CallRequest D) (name : Text) (spec : FunctionSpec D) (now : ℕ)
      → check_interval r q name spec now ≡ ok r'
      → ((ltb 0 spec.min_interval_ms ≡ false) × (r ≡ r'))
        ⊎ ((ltb 0 spec.min_interval_ms ≡ true)
            × (record r { last_dispatch = assign_sorted (key_of q spec) now r.last_dispatch } ≡ r')
            × ((q.safe_state ≡ true)
                ⊎ (remaining_ms spec.min_interval_ms now (find (key_of q spec) r.last_dispatch)
                    ≡ none)))
  unfolding check_interval
  check_interval_ok r r' q name spec now h = ground arith

  unsent_keeps :
      (r : CallRouter) (q : CallRequest D) (seen : Readings D)
      → (execute_call r q seen).sent ≡ none
      → (execute_call r q seen).router ≡ r
  unfolding execute_call
  unsent_keeps r q seen = go (gate r q seen) seen.answer
    where
      go :
          (g : Result (CallRouter × Dispatch D)) (answer : Answer D)
          → (after_gate answer r g).sent ≡ none
          → (after_gate answer r g).router ≡ r
      go (err c x) answer h = refl
      go (ok (r', call)) answer h = cc

  check_interval-DispatchedSince :
      (r r' : CallRouter) (q : CallRequest D) (name : Text) (spec : FunctionSpec D) (now t : ℕ)
      (key : Text)
      → check_interval r q name spec now ≡ ok r'
      → t ≤ now
      → ((key_of q spec ≡ key) × (ltb 0 spec.min_interval_ms ≡ true)) ⊎ DispatchedSince key t r
      → DispatchedSince key t r'
  check_interval-DispatchedSince r r' q name spec now t key h le since =
      elim (check_interval_ok r r' q name spec now h) [
        | inl (off, same) ↦ elim since [
          | inl (e, on) ↦ absurd (ground arith)
          | inr kept ↦ subst (DispatchedSince key t) same kept
        ]
        | inr (on, same, free) ↦ subst (DispatchedSince key t) same (
            recorded-DispatchedSince r key (key_of q spec) t now le
              (elim since [ inl (e, _) ↦ inl e | inr kept ↦ inr kept ]))
      ]

  execute_call-DispatchedSince :
      (r : CallRouter) (q : CallRequest D) (seen : Readings D) (t : ℕ) (key : Text)
      → t ≤ seen.now
      → DispatchedSince key t r
      → DispatchedSince key t (execute_call r q seen).router
  execute_call-DispatchedSince r q seen t key le since =
      elim (Option-cases (execute_call r q seen).sent) [
        | inl nothing ↦ subst (DispatchedSince key t) (sym (unsent_keeps r q seen nothing)) since
        | inr (call, sent) ↦
            let passed = execute_call-Passed r q seen call sent in
            check_interval-DispatchedSince r (execute_call r q seen).router q call.sent_name
              call.sent_spec seen.now t key passed.interval_kept le (inr since)
      ]

  -- A history of calls, each with its readings.
  unfoldable pub call_all : CallRouter → List (CallRequest D × Readings D) → CallRouter
  unfolding execute_call
  call_all r [] = r
  call_all r (c ∷ cs) = call_all (execute_call r c.0 c.1).router cs

  call_all-DispatchedSince :
      (r : CallRouter) (cs : List (CallRequest D × Readings D)) (t : ℕ) (key : Text)
      → All (λ c. t ≤ c.1.now) cs
      → DispatchedSince key t r
      → DispatchedSince key t (call_all r cs)
  unfolding call_all
  call_all-DispatchedSince r [] t key le since = since
  call_all-DispatchedSince r (c ∷ cs) t key le since =
      call_all-DispatchedSince (execute_call r c.0 c.1).router cs t key le.1
        (execute_call-DispatchedSince r c.0 c.1 t key le.0 since)

  sent_after :
      (r : CallRouter) (q : CallRequest D) (seen : Readings D) (call : Dispatch D) (t : ℕ)
      → (execute_call r q seen).sent ≡ some call
      → q.safe_state ≡ false
      → DispatchedSince (key_of q call.sent_spec) t r
      → call.sent_spec.min_interval_ms ≤ (seen.now - t) / 1000000
  sent_after r q seen call t h safe (last, found, since) =
      let passed = execute_call-Passed r q seen call h in
      elim (check_interval_ok r (execute_call r q seen).router q call.sent_name call.sent_spec
        seen.now passed.interval_kept) [
          | inl (off, _) ↦ ground arith
          | inr (_, _, inl yes_safe) ↦ cc
          | inr (_, _, inr free) ↦
              let waited = remaining_none call.sent_spec.min_interval_ms seen.now last (
                subst (λ o. remaining_ms call.sent_spec.min_interval_ms seen.now o ≡ none) found
                  free) in
              omega arith
        ]

  -- After a dispatch of a function that declares an interval, whatever calls are made at that time or
  -- later, another dispatch of the same function of the same device, unless it is a safe-state call,
  -- comes only when its min_interval_ms have passed.
  pub rate_limited :
      (r : CallRouter) (q q' : CallRequest D) (seen seen' : Readings D) (call call' : Dispatch D)
      (between : List (CallRequest D × Readings D))
      → (execute_call r q seen).sent ≡ some call
      → 0 < call.sent_spec.min_interval_ms
      → All (λ c. seen.now ≤ c.1.now) between
      → (execute_call (call_all (execute_call r q seen).router between) q' seen').sent ≡ some call'
      → q'.safe_state ≡ false
      → q'.device_handle ≡ q.device_handle
      → call'.sent_spec.spec_function_id ≡ call.sent_spec.spec_function_id
      → call'.sent_spec.min_interval_ms ≤ (seen'.now - seen.now) / 1000000
  unfolding key_of
  rate_limited r q q' seen seen' call call' between h on later h' safe same_device same_function =
      let passed = execute_call-Passed r q seen call h in
      let since =
        call_all-DispatchedSince (execute_call r q seen).router between seen.now
          (key_of q call.sent_spec) later
          (check_interval-DispatchedSince r (execute_call r q seen).router q call.sent_name
            call.sent_spec seen.now seen.now (key_of q call.sent_spec) passed.interval_kept
            (omega arith) (inl (refl, ground arith))) in
      sent_after (call_all (execute_call r q seen).router between) q' seen' call' seen.now h' safe
        (rw (same_device, same_function) since)
