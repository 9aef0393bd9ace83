-- ===== src/Router/Execute/Prepared.antt =====
-- The arguments with which a call reaches the provider.
use anolis.Base.{◌≡◌, subst, some, All, Text, text_key, Map, find}
use anolis.Protocol.{Doubles, Value}
use anolis.Registry.{FunctionSpec}
use anolis.Router.{ok, CallRequest, ok-injective, bind_ok}
use anolis.Router.Arguments.{coerce_arguments, validate_arguments}
use anolis.Router.Arguments.Coercion.{KeepsNumber, coerce_arguments_keeps}
use anolis.Router.Arguments.Validation.{Supplied, Declared, validate_arguments_exact}
use anolis.Router.Checks.{CallRouter, Readings, prepare_args}
use anolis.Router.Execute.{Dispatch, execute_call}
use anolis.Router.Execute.Admission.{execute_call-Passed}

module _ {D : Doubles} where
  prepare_args_ok :
      (spec : FunctionSpec D) (given args : Map Text (Value D))
      → prepare_args spec given ≡ ok args
      → (coerce_arguments spec.args given ≡ ok args) × (validate_arguments spec.args args ≡ ok tt)
  unfolding prepare_args
  prepare_args_ok spec given args h =
      let (coerced, c, h1) = bind_ok (coerce_arguments spec.args given) _ _ h in
      let (u, v, h2) = bind_ok (validate_arguments spec.args coerced) _ _ h1 in
      subst
        (λ x. (coerce_arguments spec.args given ≡ ok x) × (validate_arguments spec.args x ≡ ok tt))
        (ok-injective h2) (c, v)

  -- What reaches the provider satisfies the function's declaration: every required argument is there,
  -- and every argument is declared and within its type and bounds. Each is the requested one, or the
  -- same integer in the declared representation, and none is added or dropped.
  pub sent_args_faithful :
      (r : CallRouter) (q : CallRequest D) (seen : Readings D) (call : Dispatch D) (name : Text)
      → (execute_call r q seen).sent ≡ some call
      → All (Supplied call.sent_args) call.sent_spec.args
        × All (Declared call.sent_spec.args) call.sent_args
        × KeepsNumber (find name q.request_args) (find name call.sent_args)
  sent_args_faithful r q seen call name h =
      let passed = execute_call-Passed r q seen call h in
      let (coerced, valid) =
        prepare_args_ok call.sent_spec q.request_args call.sent_args passed.args_prepared in
      let (supplied, declared) =
        (validate_arguments_exact call.sent_spec.args call.sent_args).0 valid in
      (
        supplied,
        declared,
        coerce_arguments_keeps call.sent_spec.args q.request_args call.sent_args name coerced,
      )
