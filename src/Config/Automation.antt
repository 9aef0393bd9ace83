-- ===== src/Config/Automation.antt =====
-- The automation and the calls of a configuration that validate_config accepts.
use anolis.Base.{
  ◌≡◌, ◌≢◌, ◌↔◌, ◌⊎◌, true, false, not, ◌&&◌, ◌||◌, none, some, List, [], eqb, is_empty, is_none,
  Text, codes, text_eq, text_eq_iff, pos, ◌≤ℤ◌, arith, All, inl, inr, Bool-cases, Option-cases,
}
use anolis.Protocol.{Doubles}
use anolis.SafeState.{CallConfig}
use anolis.Parameters.{
  ParameterType, double_parameter, int64_parameter, string_parameter, parameter_value_matches_type,
}
use anolis.Parameters.Validation.{type_for, matches-type_for}
use anolis.Config.{
  ParameterConfig, HookConfig, AutomationConfig, is_valid_mode_name, is_crossed, is_numeric,
  is_string, check_each, validate_parameter, validate_call_config, validate_hook,
  validate_automation,
}
use anolis.Config.Http.{IsBetween, is_outside-IsBetween, is_empty-nil}
use anolis.Config.Providers.{
  refuse_if_iff, andthen_iff, unless_iff, check_each-All, given, at_least,
}

-- A filter of a hook: none, any mode, or the name of one.
abbrev pub IsModeFilter : Text → Type 0
IsModeFilter m =
    (m ≡ [])
    ⊎ ((m ≡ codes "MANUAL")
        ⊎ ((m ≡ codes "AUTO") ⊎ ((m ≡ codes "IDLE") ⊎ ((m ≡ codes "FAULT") ⊎ (m ≡ codes "*")))))

abbrev pub IsNumberType : ParameterType → Type 0
IsNumberType t = (t ≡ double_parameter) ⊎ (t ≡ int64_parameter)

mode_exact :
    (m : Text) → ((not (is_empty m) && not (is_valid_mode_name m)) ≡ false) ↔ IsModeFilter m
unfolding is_valid_mode_name
mode_exact m = (to, from)
  where
    to : (not (is_empty m) && not (is_valid_mode_name m)) ≡ false → IsModeFilter m
    to h = elim (Bool-cases (is_empty m)) [
      | inl e ↦ inl ((is_empty-nil m).0 e)
      | inr filled ↦ elim (Bool-cases (text_eq m (codes "MANUAL"))) [
        | inl e ↦ inr (inl ((text_eq_iff m (codes "MANUAL")).0 e))
        | inr n0 ↦ elim (Bool-cases (text_eq m (codes "AUTO"))) [
          | inl e ↦ inr (inr (inl ((text_eq_iff m (codes "AUTO")).0 e)))
          | inr n1 ↦ elim (Bool-cases (text_eq m (codes "IDLE"))) [
            | inl e ↦ inr (inr (inr (inl ((text_eq_iff m (codes "IDLE")).0 e))))
            | inr n2 ↦ elim (Bool-cases (text_eq m (codes "FAULT"))) [
              | inl e ↦ inr (inr (inr (inr (inl ((text_eq_iff m (codes "FAULT")).0 e)))))
              | inr n3 ↦ elim (Bool-cases (text_eq m (codes "*"))) [
                | inl e ↦ inr (inr (inr (inr (inr ((text_eq_iff m (codes "*")).0 e)))))
                | inr n4 ↦ absurd (ground (arith, h, filled, n0, n1, n2, n3, n4))
              ]
            ]
          ]
        ]
      ]
    ]

    from : IsModeFilter m → (not (is_empty m) && not (is_valid_mode_name m)) ≡ false
    from (inl e) = ground (arith, (is_empty-nil m).1 e)
    from (inr (inl e)) = ground (arith, (text_eq_iff m (codes "MANUAL")).1 e)
    from (inr (inr (inl e))) = ground (arith, (text_eq_iff m (codes "AUTO")).1 e)
    from (inr (inr (inr (inl e)))) = ground (arith, (text_eq_iff m (codes "IDLE")).1 e)
    from (inr (inr (inr (inr (inl e))))) = ground (arith, (text_eq_iff m (codes "FAULT")).1 e)
    from (inr (inr (inr (inr (inr e))))) = ground (arith, (text_eq_iff m (codes "*")).1 e)

module _ {D : Doubles} where
  -- The default has the declared type, bounds stand on numbers and are in order, allowed values on texts.
  abbrev pub ParameterAccepted : ParameterConfig D → Type 0
  ParameterAccepted p =
      (p.param_name ≢ [])
      × ((p.param_type ≡ type_for p.default_value)
          × ((IsNumberType p.param_type ⊎ ((p.param_min ≡ none) × (p.param_max ≡ none)))
              × (((low high : D.Double)
                    → p.param_min ≡ some low
                    → p.param_max ≡ some high
                    → D.double_lt high low ≡ false)
                  × ((p.param_type ≡ string_parameter) ⊎ (p.param_allowed ≡ [])))))

  -- A device and a function to call, by its number or its name.
  abbrev pub CallAccepted : CallConfig D → Type 0
  CallAccepted c = (c.call_handle ≢ []) × ((c.call_function_id ≢ 0) ⊎ (c.call_function_name ≢ []))

  abbrev pub HookAccepted : HookConfig D → Type 0
  HookAccepted h =
      IsModeFilter h.hook_from
      × (IsModeFilter h.hook_to × ((h.hook_calls ≢ []) × All CallAccepted h.hook_calls))

  abbrev pub AutomationAccepted : AutomationConfig D → Type 0
  AutomationAccepted a =
      (a.behavior_tree ≢ [])
      × (IsBetween a.tick_rate_hz 1 1000
          × ((pos 1 ≤ℤ a.max_consecutive_call_failures)
              × (All ParameterAccepted a.parameters
                  × (All HookAccepted a.before_transition × All HookAccepted a.after_transition))))

  typed_exact :
      (p : ParameterConfig D)
      → (not (parameter_value_matches_type p.param_type p.default_value) ≡ false)
        ↔ (p.param_type ≡ type_for p.default_value)
  typed_exact p = (
    λ h. (matches-type_for p.param_type p.default_value).0 (ground (arith, h)),
    λ e. ground (arith, (matches-type_for p.param_type p.default_value).1 e),
  )

  bounds_exact :
      (p : ParameterConfig D)
      → ((not (is_numeric p) && (not (is_none p.param_min) || not (is_none p.param_max))) ≡ false)
        ↔ (IsNumberType p.param_type ⊎ ((p.param_min ≡ none) × (p.param_max ≡ none)))
  bounds_exact p = ground arith

  crossed_exact :
      (p : ParameterConfig D)
      → (is_crossed p ≡ false) ↔ (
          (low high : D.Double)
          → p.param_min ≡ some low
          → p.param_max ≡ some high
          → D.double_lt high low ≡ false)
  crossed_exact p = (
    λ h low high is_low is_high. ground (arith, h, is_low, is_high),
    λ h. elim (Option-cases p.param_min) [
      | inl no_low ↦ ground (arith, no_low)
      | inr (low, is_low) ↦ elim (Option-cases p.param_max) [
        | inl no_high ↦ ground (arith, is_low, no_high)
        | inr (high, is_high) ↦ ground (arith, is_low, is_high, h low high is_low is_high)
      ]
    ],
  )

  allowed_exact :
      (p : ParameterConfig D)
      → ((not (is_string p) && not (is_empty p.param_allowed)) ≡ false)
        ↔ ((p.param_type ≡ string_parameter) ⊎ (p.param_allowed ≡ []))
  allowed_exact p = ground arith

  function_exact :
      (c : CallConfig D)
      → ((eqb c.call_function_id 0 && is_empty c.call_function_name) ≡ false)
        ↔ ((c.call_function_id ≢ 0) ⊎ (c.call_function_name ≢ []))
  function_exact c = ground (arith, given c.call_function_name)

  call_exact : (c : CallConfig D) → (validate_call_config c ≡ none) ↔ CallAccepted c
  unfolding validate_call_config
  call_exact c =
      andthen_iff _ _ (refuse_if_iff _ _ (given c.call_handle))
        (refuse_if_iff _ _ (function_exact c))

  pub calls_exact :
      (cs : List (CallConfig D)) → (check_each validate_call_config cs ≡ none) ↔ All CallAccepted cs
  calls_exact = check_each-All validate_call_config call_exact

  parameter_exact : (p : ParameterConfig D) → (validate_parameter p ≡ none) ↔ ParameterAccepted p
  unfolding validate_parameter
  parameter_exact p = andthen_iff _ _ (refuse_if_iff _ _ (given p.param_name)) (
      andthen_iff _ _ (refuse_if_iff _ _ (typed_exact p)) (
        andthen_iff _ _ (refuse_if_iff _ _ (bounds_exact p)) (
          andthen_iff _ _ (refuse_if_iff _ _ (crossed_exact p))
            (refuse_if_iff _ _ (allowed_exact p)))))

  hook_exact : (h : HookConfig D) → (validate_hook h ≡ none) ↔ HookAccepted h
  unfolding validate_hook
  hook_exact h = andthen_iff _ _ (refuse_if_iff _ _ (mode_exact h.hook_from)) (
      andthen_iff _ _ (refuse_if_iff _ _ (mode_exact h.hook_to))
        (andthen_iff _ _ (refuse_if_iff _ _ (given h.hook_calls)) (calls_exact h.hook_calls)))

  pub automation_exact :
      (a : AutomationConfig D)
      → (validate_automation a ≡ none) ↔ (a.automation_enabled ≡ true → AutomationAccepted a)
  unfolding validate_automation
  automation_exact a = unless_iff a.automation_enabled _ (
      andthen_iff _ _ (refuse_if_iff _ _ (given a.behavior_tree)) (
        andthen_iff _ _ (refuse_if_iff _ _ (is_outside-IsBetween a.tick_rate_hz 1 1000)) (
          andthen_iff _ _ (refuse_if_iff _ _ (at_least a.max_consecutive_call_failures 1)) (
            andthen_iff _ _ (check_each-All validate_parameter parameter_exact a.parameters) (
              andthen_iff _ _ (check_each-All validate_hook hook_exact a.before_transition)
                (check_each-All validate_hook hook_exact a.after_transition))))))
