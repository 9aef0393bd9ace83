-- ===== src/SafeState/Plan.antt =====
-- What the plan of the ladder means.
use anolis.Base.{
  Map, ◌≡◌, ◌≢◌, ◌↔◌, refl, Bool, true, false, not, ◌&&◌, List, [], ◌∷◌, ◌++◌, if◌then◌else◌, arith,
  any, keep, is_empty, All, Text, Bool-cases, inl, inr, ◌⊎◌, text_eq_iff,
}
use anolis.Protocol.{Doubles}
use anolis.Registry.{FunctionSpec, RegisteredDevice, get_handle}
use anolis.SafeState.{
  CallConfig, SafeStateConfig, no_rung, hooks_rung, setpoints_rung, zero_rung, is_actuate,
  setpoint_matches, actuating_of, actuating_functions_for, is_covered, planned_safe_state_kind,
}

chosen_setpoints :
    (has_hooks has_setpoints all_covered zero : Bool)
    → ((if has_hooks
          then hooks_rung
          else if has_setpoints && all_covered
          then setpoints_rung
          else if zero
          then zero_rung
          else no_rung)
        ≡ setpoints_rung)
      ↔ ((has_hooks ≡ false) × ((has_setpoints ≡ true) × (all_covered ≡ true)))
chosen_setpoints true s u z = (λ e. absurd (ground (arith, e)), λ c. absurd (ground (arith, c.0)))
chosen_setpoints false true true z = (λ e. (refl, (refl, refl)), λ c. refl)
chosen_setpoints false true false true =
    (λ e. absurd (ground (arith, e)), λ c. absurd (ground (arith, c.1.1)))
chosen_setpoints false true false false =
    (λ e. absurd (ground (arith, e)), λ c. absurd (ground (arith, c.1.1)))
chosen_setpoints false false u true =
    (λ e. absurd (ground (arith, e)), λ c. absurd (ground (arith, c.1.0)))
chosen_setpoints false false u false =
    (λ e. absurd (ground (arith, e)), λ c. absurd (ground (arith, c.1.0)))

is_empty_iff : {A : Type 0} (xs : List A) → (is_empty xs ≡ true) ↔ (xs ≡ [])
is_empty_iff [] = (λ _. refl, λ _. refl)
is_empty_iff (x ∷ xs) = (λ e. absurd (ground (arith, e)), λ e. absurd (ground (arith, e)))

module _ {D : Doubles} where
  -- A setpoint selects a function of a device: it names the device, and the function by its id or by its
  -- name, or by both where they agree.
  abbrev pub Selects : CallConfig D → Text → FunctionSpec D → Type 0
  Selects call handle spec =
      (call.call_handle ≡ handle)
      × (((call.call_function_id ≡ 0) ⊎ (call.call_function_id ≡ spec.spec_function_id))
          × (((call.call_function_name ≡ []) ⊎ (call.call_function_name ≡ spec.spec_function_name))
              × ((call.call_function_id ≢ 0) ⊎ (call.call_function_name ≢ []))))

  abbrev pub HasSetpoint : List (CallConfig D) → Text → FunctionSpec D → Type 0
  HasSetpoint [] handle spec = ⊥
  HasSetpoint (call ∷ calls) handle spec = Selects call handle spec ⊎ HasSetpoint calls handle spec

  setpoint_matches_iff :
      (call : CallConfig D) (handle : Text) (spec : FunctionSpec D)
      → (setpoint_matches call handle spec ≡ true) ↔ Selects call handle spec
  unfolding setpoint_matches
  setpoint_matches_iff call handle spec =
      let same_handle = text_eq_iff call.call_handle handle in
      let same_name = text_eq_iff call.call_function_name spec.spec_function_name in
      let unnamed = is_empty_iff call.call_function_name in
      (
        (λ e. ground (arith, e, same_handle, same_name, unnamed)),
        (λ s. ground (arith, s, same_handle, same_name, unnamed)),
      )

  any_setpoint :
      (calls : List (CallConfig D)) (handle : Text) (spec : FunctionSpec D)
      → (any (λ call. setpoint_matches call handle spec) calls ≡ true)
        ↔ HasSetpoint calls handle spec
  any_setpoint [] handle spec = (λ e. absurd (ground (arith, e)), λ h. absurd h)
  any_setpoint (call ∷ calls) handle spec =
      let here = setpoint_matches_iff call handle spec in
      let rest = any_setpoint calls handle spec in
      (
        λ e. elim (Bool-cases (setpoint_matches call handle spec)) [
          | inl yes_here ↦ inl (here.0 yes_here)
          | inr other ↦ inr (rest.0 (ground (arith, e, other)))
        ],
        λ h. elim h [ inl s ↦ ground (arith, here.1 s) | inr r ↦ ground (arith, rest.1 r) ],
      )

  -- Every function of the device that is declared ACTUATE has a setpoint that selects it.
  abbrev pub FunctionsCovered : List (CallConfig D) → Text → Map Text (FunctionSpec D) → Type 0
  FunctionsCovered setpoints handle =
      All (λ f. is_actuate f.1.category ≡ true → HasSetpoint setpoints handle f.1)

  abbrev pub DevicesCovered : List (CallConfig D) → List (RegisteredDevice D) → Type 0
  DevicesCovered setpoints =
      All (λ device. FunctionsCovered setpoints (get_handle device) device.functions_by_id)

  abbrev uncovered_of :
      List (CallConfig D) → List (Text × FunctionSpec D) → List (Text × FunctionSpec D)
  uncovered_of setpoints = keep (λ f. not (is_covered setpoints f))

  keep-append :
      (p : Text × FunctionSpec D → Bool) (xs ys : List (Text × FunctionSpec D))
      → is_empty (keep p (xs ++ ys)) ≡ (is_empty (keep p xs) && is_empty (keep p ys))
  keep-append p [] ys = ground arith
  keep-append p (x ∷ xs) ys = ground (arith, keep-append p xs ys)

  actuating_of-covered :
      (setpoints : List (CallConfig D)) (handle : Text) (functions : Map Text (FunctionSpec D))
      → (is_empty (uncovered_of setpoints (actuating_of handle functions)) ≡ true)
        ↔ FunctionsCovered setpoints handle functions
  unfolding actuating_of
  actuating_of-covered setpoints handle [] = (λ _. tt, λ _. refl)
  actuating_of-covered setpoints handle ((name, spec) ∷ functions) =
      let rest = actuating_of-covered setpoints handle functions in
      let has = any_setpoint setpoints handle spec in
      (
        λ e. (λ a. has.0 (ground (arith, e, a)), rest.0 (ground (arith, e))),
        λ c. elim (Bool-cases (is_actuate spec.category)) [
          | inl acts ↦ ground (arith, acts, has.1 (c.0 acts), rest.1 c.1)
          | inr passive ↦ ground (arith, passive, rest.1 c.1)
        ],
      )

  actuating_functions_for-covered :
      (setpoints : List (CallConfig D)) (devices : List (RegisteredDevice D))
      → (is_empty (uncovered_of setpoints (actuating_functions_for devices)) ≡ true)
        ↔ DevicesCovered setpoints devices
  unfolding actuating_functions_for
  actuating_functions_for-covered setpoints [] = (λ _. tt, λ _. refl)
  actuating_functions_for-covered setpoints (device ∷ devices) =
      let rest = actuating_functions_for-covered setpoints devices in
      let here = actuating_of-covered setpoints (get_handle device) device.functions_by_id in
      let both =
        keep-append (λ f. not (is_covered setpoints f))
          (actuating_of (get_handle device) device.functions_by_id)
          (actuating_functions_for devices) in
      (
        λ e. (here.0 (ground (arith, e, both)), rest.0 (ground (arith, e, both))),
        λ c. ground (arith, both, here.1 c.0, rest.1 c.1),
      )

  -- The setpoints rung is planned exactly when there are no hooks, there are setpoints, and every
  -- function of the registry that is declared ACTUATE has a setpoint that selects it.
  pub planned_setpoints :
      (devices : List (RegisteredDevice D)) (safety : SafeStateConfig D)
      → (planned_safe_state_kind devices safety ≡ setpoints_rung) ↔ (
          (safety.hooks ≡ []) × ((safety.setpoints ≢ []) × DevicesCovered safety.setpoints devices))
  unfolding planned_safe_state_kind
  planned_setpoints devices safety =
      let covered = actuating_functions_for-covered safety.setpoints devices in
      let uncovered = uncovered_of safety.setpoints (actuating_functions_for devices) in
      let chosen =
        chosen_setpoints (not (is_empty safety.hooks)) (not (is_empty safety.setpoints))
          (is_empty uncovered) safety.zero_is_safe in
      let no_hooks = is_empty_iff safety.hooks in
      let no_setpoints = is_empty_iff safety.setpoints in
      (
        λ e. (
          no_hooks.0 (ground (arith, (chosen.0 e).0)),
          (
            (λ none_set. ground (arith, (chosen.0 e).1.0, no_setpoints.1 none_set)),
            covered.0 (chosen.0 e).1.1,
          ),
        ),
        λ c. chosen.1 (
          ground (arith, no_hooks.1 c.0),
          (some_set (λ t. c.1.0 (no_setpoints.0 t)), covered.1 c.1.1),
        ),
      )
    where
      some_set : (is_empty safety.setpoints ≡ true → ⊥) → not (is_empty safety.setpoints) ≡ true
      some_set h = elim (Bool-cases (is_empty safety.setpoints)) [
        | inl t ↦ absurd (h t)
        | inr f ↦ ground (arith, f)
      ]
