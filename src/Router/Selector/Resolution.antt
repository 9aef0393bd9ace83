-- ===== src/Router/Selector/Resolution.antt =====
-- Handles split back into what they were joined from, and a resolved function agrees with both
-- selectors.
use anolis.Base.{
  ℕ, ◌≡◌, ◌≢◌, ◌↔◌, refl, ap, subst, ◌∙◌, true, false, none, some, Option-cases, arith, [], ◌∷◌,
  All, inl, inr, ◌⊎◌, Text, text_eq_iff, text_key, Map, find, is_empty,
}
use anolis.Protocol.{Doubles}
use anolis.Registry.{FunctionSpec, RegisteredDevice, join_handle}
use anolis.Router.{ok, CallRequest}
use anolis.Router.Selector.{
  split_slash, parse_device_handle, selected, find_by_id, validate_function_exists, resolve_by_id,
  resolve_function_spec, resolve_call,
}

abbrev pub NoSlash : Text → Type 0
NoSlash = All (λ c. c ≢ 47)

split_slash-none :
    (c : ℕ) (s provider_id device_id : Text)
    → split_slash s ≡ none
    → split_slash (c ∷ s) ≡ some (provider_id, device_id)
    → (c ≡ 47) × ([] ≡ provider_id) × (s ≡ device_id)
unfolding split_slash
split_slash-none c s provider_id device_id e h = ground arith

split_slash-some :
    (c : ℕ) (s provider_id device_id p d : Text)
    → split_slash s ≡ some (p, d)
    → split_slash (c ∷ s) ≡ some (provider_id, device_id)
    → ((c ≡ 47) × ([] ≡ provider_id) × (s ≡ device_id))
      ⊎ ((c ≢ 47) × (c ∷ p ≡ provider_id) × (d ≡ device_id))
unfolding split_slash
split_slash-some c s provider_id device_id p d e h = ground arith

at_slash :
    (c : ℕ) (s provider_id device_id : Text)
    → (c ≡ 47) × ([] ≡ provider_id) × (s ≡ device_id)
    → (c ∷ s ≡ join_handle provider_id device_id) × NoSlash provider_id
at_slash c s provider_id device_id (e, p, d) =
    subst (λ x. (c ∷ s ≡ join_handle x device_id) × NoSlash x) p
      (subst (λ x. c ∷ s ≡ 47 ∷ x) d (ap (λ x. x ∷ s) e), tt)

split_empty :
    (provider_id device_id : Text)
    → split_slash [] ≡ some (provider_id, device_id)
    → ([] ≡ join_handle provider_id device_id) × NoSlash provider_id
unfolding split_slash
split_empty provider_id device_id h = cc

split_slash_lem :
    (handle provider_id device_id : Text)
    → split_slash handle ≡ some (provider_id, device_id)
    → (handle ≡ join_handle provider_id device_id) × NoSlash provider_id
split_slash_lem [] provider_id device_id h = split_empty provider_id device_id h
split_slash_lem (c ∷ s) provider_id device_id h = elim (Option-cases (split_slash s)) [
  | inl missing ↦
      at_slash c s provider_id device_id (split_slash-none c s provider_id device_id missing h)
  | inr ((p, d), found) ↦ elim (split_slash-some c s provider_id device_id p d found h) [
    | inl here ↦ at_slash c s provider_id device_id here
    | inr (other, first, second) ↦
        let (joined, plain) = split_slash_lem s p d found in
        subst (λ x. (c ∷ s ≡ join_handle x device_id) × NoSlash x) first
          (ap (λ x. c ∷ x) (joined ∙ ap (join_handle p) second), (other, plain))
  ]
]

split_slash-join :
    (provider_id device_id : Text)
    → NoSlash provider_id
    → split_slash (join_handle provider_id device_id) ≡ some (provider_id, device_id)
unfolding split_slash
split_slash-join [] device_id h = refl
split_slash-join (c ∷ s) device_id h = rw (split_slash-join s device_id h.1) (ground (arith, h.0))

parse_ok :
    (handle provider_id device_id : Text)
    → parse_device_handle handle ≡ ok (provider_id, device_id)
    → (split_slash handle ≡ some (provider_id, device_id))
      × (is_empty provider_id ≡ false)
      × (is_empty device_id ≡ false)
unfolding parse_device_handle
parse_ok handle provider_id device_id h = ground arith

-- A handle parses as a provider and a device exactly when it is the handle that the registry joins
-- from the two, the provider's name has no slash, and neither is empty.
pub parse_device_handle_exact :
    (handle provider_id device_id : Text)
    → (parse_device_handle handle ≡ ok (provider_id, device_id)) ↔ (
        (handle ≡ join_handle provider_id device_id)
        × NoSlash provider_id
        × (is_empty provider_id ≡ false)
        × (is_empty device_id ≡ false))
unfolding parse_device_handle
parse_device_handle_exact handle provider_id device_id = (
  λ h.
      let (split, some_provider, some_device) = parse_ok handle provider_id device_id h in
      let (joined, plain) = split_slash_lem handle provider_id device_id split in
      (joined, plain, some_provider, some_device),
  λ (joined, plain, some_provider, some_device).
      rw
        (
          joined,
          split_slash-join provider_id device_id plain,
          some_provider,
          some_device,
          parse_device_handle,
        )
        refl,
)

module _ {D : Doubles} where
  -- The entry (name, spec) is listed in the map.
  abbrev pub Listed : Text → FunctionSpec D → Map Text (FunctionSpec D) → Type 0
  Listed name spec [] = ⊥
  Listed name spec ((n, f) ∷ m) = ((n ≡ name) × (f ≡ spec)) ⊎ Listed name spec m

  find_by_id-Listed :
      (i : ℕ) (m : Map Text (FunctionSpec D)) (name : Text) (spec : FunctionSpec D)
      → find_by_id i m ≡ some (name, spec)
      → Listed name spec m × (spec.spec_function_id ≡ i)
  unfolding find_by_id
  find_by_id-Listed i [] name spec h = cc
  find_by_id-Listed i ((n, f) ∷ m) name spec h = ground (arith, find_by_id-Listed i m name spec)

  find-Listed :
      (name : Text) (m : Map Text (FunctionSpec D)) (spec : FunctionSpec D)
      → find name m ≡ some spec
      → Listed name spec m
  unfolding find
  find-Listed name [] spec h = cc
  find-Listed name ((n, f) ∷ m) spec h = ground (arith, text_eq_iff n name, find-Listed name m spec)

  resolve_by_id_ok :
      (device : RegisteredDevice D) (i : ℕ) (requested name : Text) (spec : FunctionSpec D)
      → resolve_by_id device i requested ≡ selected name spec
      → (find_by_id i device.functions_by_id ≡ some (name, spec))
        × ((is_empty requested ≡ true) ⊎ (requested ≡ name))
  unfolding resolve_by_id
  resolve_by_id_ok device i requested name spec h = ground (arith, text_eq_iff requested name)

  validate_function_exists_ok :
      (device : RegisteredDevice D) (requested name : Text) (spec : FunctionSpec D)
      → validate_function_exists device requested ≡ selected name spec
      → (find requested device.functions_by_id ≡ some spec) × (requested ≡ name)
  unfolding validate_function_exists
  validate_function_exists_ok device requested name spec h = ground arith

  resolve_call_ok :
      (device : RegisteredDevice D) (q : CallRequest D) (name : Text) (spec : FunctionSpec D)
      → resolve_call device q ≡ ok (name, spec)
      → resolve_function_spec device q ≡ selected name spec
  unfolding resolve_call
  resolve_call_ok device q name spec h = ground arith

  resolve_cases :
      (device : RegisteredDevice D) (q : CallRequest D) (name : Text) (spec : FunctionSpec D)
      → resolve_function_spec device q ≡ selected name spec
      → ((q.function_id ≢ 0)
          × (resolve_by_id device q.function_id q.function_name ≡ selected name spec))
        ⊎ ((q.function_id ≡ 0)
            × (is_empty q.function_name ≡ false)
            × (validate_function_exists device q.function_name ≡ selected name spec))
  unfolding resolve_function_spec
  resolve_cases device q name spec h = ground arith

  -- What a request resolves to is a function of the device, and it agrees with every selector that the
  -- request gives: it has the requested id unless that is 0, and the requested name unless that is
  -- empty; one of the two is given.
  pub resolve_call_agrees :
      (device : RegisteredDevice D) (q : CallRequest D) (name : Text) (spec : FunctionSpec D)
      → resolve_call device q ≡ ok (name, spec)
      → Listed name spec device.functions_by_id
        × ((q.function_id ≡ 0) ⊎ (spec.spec_function_id ≡ q.function_id))
        × ((is_empty q.function_name ≡ true) ⊎ (q.function_name ≡ name))
        × ((q.function_id ≢ 0) ⊎ (is_empty q.function_name ≡ false))
  resolve_call_agrees device q name spec h =
      elim (resolve_cases device q name spec (resolve_call_ok device q name spec h)) [
        | inl (with_id, by_id) ↦
            let (found, named) =
              resolve_by_id_ok device q.function_id q.function_name name spec by_id in
            let (listed, same_id) =
              find_by_id-Listed q.function_id device.functions_by_id name spec found in
            (listed, inr same_id, named, inl with_id)
        | inr (no_id, given, exists) ↦
            let (found, same) =
              validate_function_exists_ok device q.function_name name spec exists in
            (
              subst (λ n. Listed n spec device.functions_by_id) same
                  (find-Listed q.function_name device.functions_by_id spec found),
              inl no_id,
              inr same,
              inr given,
            )
      ]
