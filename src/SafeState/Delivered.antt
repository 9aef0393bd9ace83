-- ===== src/SafeState/Delivered.antt =====
-- What a call of the ladder asks for, against what reaches the provider: its device, its function and
-- its arguments, read off the configuration or the zero rung and not off the request.
use anolis.Base.{
  ℕ, ◌≡◌, ◌⊎◌, refl, sym, ap, subst, ◌∙◌, true, Option, none, some, [], ◌∷◌, if◌then◌else◌, arith,
  All, inl, inr, Bool-cases, is_empty, pos, Text, text_eq, text_key, Map, find, assign_sorted,
  find-assign_sorted,
}
use anolis.Protocol.{Doubles, Value, Kind, double_value, int64_value, bool_value, string_value}
use anolis.Registry.{FunctionSpec, join_handle}
use anolis.Router.{CallRequest}
use anolis.Router.Arguments.Coercion.{KeepsNumber, SameNumber, Denotes}
use anolis.Router.Checks.{CallRouter, Readings}
use anolis.Router.Execute.{Dispatch, execute_call}
use anolis.Router.Execute.Admission.{execute_call-Passed}
use anolis.Router.Execute.Prepared.{sent_args_faithful}
use anolis.Router.Selector.Resolution.{parse_device_handle_exact, resolve_call_agrees}
use anolis.SafeState.{
  ParameterValue, parameter_double, parameter_int64, parameter_bool, parameter_string, CallConfig,
  to_provider_value, provider_args, to_call_request, zero_request, zeroed, build_zero_args,
}
use anolis.SafeState.Zeroing.{IsZero, zeroed_exact}

module _ {D : Doubles} where
  -- The call reached the device of the handle and the function that it selects, with such arguments.
  pub record Delivered (handle : Text) (id : ℕ) (name : Text)
      (Wanted : Text → Option (Value D) → Type 0) (call : Dispatch D) : Type 0 where
    pub to_device : handle ≡ join_handle call.sent_to call.sent_device
    pub same_id : (id ≡ 0) ⊎ (call.sent_spec.spec_function_id ≡ id)
    pub same_name : (is_empty name ≡ true) ⊎ (name ≡ call.sent_name)
    pub wanted : (n : Text) → Wanted n (find n call.sent_args)

  execute_call-Delivered :
      (r : CallRouter) (q : CallRequest D) (seen : Readings D) (call : Dispatch D)
      → (execute_call r q seen).sent ≡ some call
      → Delivered q.device_handle q.function_id q.function_name
          (λ n. KeepsNumber (find n q.request_args))
          call
  execute_call-Delivered r q seen call h =
      let passed = execute_call-Passed r q seen call h in
      let (listed, id, named, given) =
        resolve_call_agrees passed.device q call.sent_name call.sent_spec
          passed.function_resolved in
      record {
        to_device =
            ((parse_device_handle_exact q.device_handle call.sent_to call.sent_device).0
              passed.handle_parsed).0;
        same_id = id;
        same_name = named;
        wanted = λ n. let (supplied, declared, kept) = sent_args_faithful r q seen call n h in kept;
      }

  -- What a parameter's value is for a provider.
  abbrev pub means : ParameterValue D → Kind D
  means (parameter_double x) = double_value x
  means (parameter_int64 n) = int64_value n
  means (parameter_bool b) = bool_value b
  means (parameter_string s) = string_value s

  -- The last value that is declared for a name.
  abbrev pub last_declared : Text → Map Text (ParameterValue D) → Option (ParameterValue D)
  last_declared n [] = none
  last_declared n ((k, v) ∷ rest) = elim (last_declared n rest) [
    | some w ↦ some w
    | none ↦ if text_eq k n then some v else none
  ]

  -- An argument is sent where it is declared, as the declared value or, for an integer, the same integer.
  abbrev pub SentAs : Option (ParameterValue D) → Option (Value D) → Type 0
  SentAs none none = Unit
  SentAs (some p) (some v) = SameNumber (means p) v.kind
  SentAs _ _ = ⊥

  abbrev pub DeliveredCall : CallConfig D → Dispatch D → Type 0
  DeliveredCall c =
      Delivered c.call_handle c.call_function_id c.call_function_name
        (λ n. SentAs (last_declared n c.call_args))

  provided : Option (ParameterValue D) → Option (Value D) → Option (Value D)
  unfolding to_provider_value
  provided (some p) o = some (to_provider_value p)
  provided none o = o

  find-provider_args :
      (n : Text) (ps : Map Text (ParameterValue D)) (args : Map Text (Value D))
      → find n (provider_args ps args) ≡ provided (last_declared n ps) (find n args)
  unfolding provider_args provided
  find-provider_args n [] args = refl
  find-provider_args n ((k, v) ∷ ps) args =
      find-provider_args n ps (assign_sorted k (to_provider_value v) args)
      ∙ ap (provided (last_declared n ps)) (find-assign_sorted k n (to_provider_value v) args)
      ∙ last (last_declared n ps)
    where
      last :
          (o : Option (ParameterValue D))
          → provided o (if text_eq k n then some (to_provider_value v) else find n args)
            ≡ provided
                (elim o [ some w ↦ some w | none ↦ if text_eq k n then some v else none ])
                (find n args)
      last (some w) = refl
      last none = ground arith

  means_lem : (p : ParameterValue D) → (to_provider_value p).kind ≡ means p
  unfolding to_provider_value
  means_lem (parameter_double x) = refl
  means_lem (parameter_int64 n) = refl
  means_lem (parameter_bool b) = refl
  means_lem (parameter_string s) = refl

  KeepsNumber-SentAs :
      (o : Option (ParameterValue D)) (sent : Option (Value D))
      → KeepsNumber (provided o none) sent
      → SentAs o sent
  unfolding provided
  KeepsNumber-SentAs none none k = tt
  KeepsNumber-SentAs none (some v) k = absurd k
  KeepsNumber-SentAs (some p) none k = absurd k
  KeepsNumber-SentAs (some p) (some v) k = subst (λ m. SameNumber m v.kind) (means_lem p) k

  pub to_call_request-Delivered :
      (r : CallRouter) (c : CallConfig D) (seen : Readings D) (call : Dispatch D)
      → (execute_call r (to_call_request c) seen).sent ≡ some call
      → DeliveredCall c call
  unfolding to_call_request find
  to_call_request-Delivered r c seen call h =
      let d = execute_call-Delivered r (to_call_request c) seen call h in
      record {
        to_device = d.to_device;
        same_id = d.same_id;
        same_name = d.same_name;
        wanted = λ n. KeepsNumber-SentAs (last_declared n c.call_args) (find n call.sent_args) (
            subst (λ o. KeepsNumber o (find n call.sent_args)) (find-provider_args n c.call_args [])
              (d.wanted n));
      }

  -- No argument, or one that is zero.
  abbrev pub NoneOrZero : Option (Value D) → Type 0
  NoneOrZero none = Unit
  NoneOrZero (some v) = (v.kind ≡ double_value D.double_zero) ⊎ Denotes v.kind (pos 0)

  abbrev pub DeliveredZero : Text × FunctionSpec D → Dispatch D → Type 0
  DeliveredZero f = Delivered f.0 f.1.spec_function_id f.1.spec_function_name (λ n. NoneOrZero)

  OptionZero : Option (Value D) → Type 0
  OptionZero none = Unit
  OptionZero (some v) = IsZero v

  find-OptionZero :
      (n : Text) (args : Map Text (Value D)) → All (λ e. IsZero e.1) args → OptionZero (find n args)
  unfolding find OptionZero
  find-OptionZero n [] z = tt
  find-OptionZero n ((k, v) ∷ args) z = elim (Bool-cases (text_eq k n)) [
    | inl same ↦ rw (same, find) z.0
    | inr other ↦ rw (other, find) (find-OptionZero n args z.1)
  ]

  -- A value that keeps the number of a zero is zero.
  zero_kept : (v w : Value D) → IsZero v → SameNumber v.kind w.kind → NoneOrZero (some w)
  zero_kept v w (inl e) (inl same) = inl (sym same ∙ ap (λ x. x.kind) e)
  zero_kept v w (inl e) (inr (n, h, d)) = absurd (ground (arith, e, h))
  zero_kept v w (inr (inl e)) (inl same) =
      inr (subst (λ k. Denotes k (pos 0)) (ap (λ x. x.kind) (sym e) ∙ same) refl)
  zero_kept v w (inr (inl e)) (inr (n, h, d)) =
      inr (subst (Denotes w.kind) (ground (arith, e, h)) d)
  zero_kept v w (inr (inr e)) (inl same) =
      inr (subst (λ k. Denotes k (pos 0)) (ap (λ x. x.kind) (sym e) ∙ same) refl)
  zero_kept v w (inr (inr e)) (inr (n, h, d)) =
      inr (subst (Denotes w.kind) (ground (arith, e, h)) d)

  KeepsNumber-NoneOrZero :
      (o sent : Option (Value D)) → OptionZero o → KeepsNumber o sent → NoneOrZero sent
  unfolding OptionZero
  KeepsNumber-NoneOrZero none none z k = tt
  KeepsNumber-NoneOrZero none (some w) z k = absurd k
  KeepsNumber-NoneOrZero (some v) none z k = absurd k
  KeepsNumber-NoneOrZero (some v) (some w) z k = zero_kept v w z k

  pub zero_request-Delivered :
      (r : CallRouter) (handle : Text) (spec : FunctionSpec D) (args : Map Text (Value D))
      (seen : Readings D) (call : Dispatch D)
      → build_zero_args spec ≡ zeroed args
      → (execute_call r (zero_request true handle spec args) seen).sent ≡ some call
      → DeliveredZero (handle, spec) call
  zero_request-Delivered r handle spec args seen call zeros h =
      let d = execute_call-Delivered r (zero_request true handle spec args) seen call h in
      record {
        to_device = d.to_device;
        same_id = d.same_id;
        same_name = d.same_name;
        wanted = λ n.
            KeepsNumber-NoneOrZero (find n args) (find n call.sent_args)
              (find-OptionZero n args (zeroed_exact spec args zeros).1.0) (d.wanted n);
      }
