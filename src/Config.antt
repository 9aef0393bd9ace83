-- ===== src/Config.antt =====
-- core/runtime/{config.hpp,config.cpp} and core/provider/provider_config.hpp: the configuration and
-- what validate_config refuses, with the first check that fails as the error. The reading of YAML
-- before it is left out, but for the shape of a handle. Only the fields that are checked are kept.
pub mod Http
pub mod Providers
pub mod Automation
pub mod Accepted
pub mod Handles
use anolis.Base.{
  ℕ, suc, ◌*◌, Bool, true, false, not, ◌&&◌, ◌||◌, Option, none, some, List, [], ◌∷◌, if◌then◌else◌,
  eqb, length, any, is_empty, is_none, map, Text, codes, text_eq, text_key, contains, ℤ, pos,
  pos_part, ltb_ℤ, starts_with,
}
use anolis.Protocol.{Doubles}
use anolis.SafeState.{ParameterValue, CallConfig, SafeStateConfig}
use anolis.Parameters.{
  ParameterType, double_parameter, int64_parameter, string_parameter, parameter_value_matches_type,
}
use anolis.Supervisor.{RestartPolicyConfig}

pub data GatingPolicy : Type 0 where
  block override : GatingPolicy

unfoldable pub parse_gating_policy : Text → Option GatingPolicy
parse_gating_policy policy =
    if text_eq policy (codes "BLOCK")
    then some block
    else if text_eq policy (codes "OVERRIDE")
    then some override
    else none

unfoldable pub gating_policy_to_string : GatingPolicy → Text
gating_policy_to_string block = codes "BLOCK"
gating_policy_to_string override = codes "OVERRIDE"

pub record HttpConfig : Type 0 where
  pub http_enabled : Bool
  pub bind : Text
  pub port : ℤ
  pub cors_allowed_origins : List Text
  pub cors_allow_credentials : Bool
  pub thread_pool_size : ℤ
  pub auth_enabled : Bool
  pub auth_token : Text
  pub allow_insecure_bind : Bool
  pub tls_cert_path : Text
  pub tls_key_path : Text

-- RestartPolicyConfig as it is read, with C++ `int`s.
pub record ReadPolicy : Type 0 where
  pub restart_enabled : Bool
  pub read_max_attempts : ℤ
  pub read_backoff_ms : List ℤ
  pub read_timeout_ms : ℤ
  pub read_success_reset_ms : ℤ

pub record ProviderConfig : Type 0 where
  pub id : Text
  pub command : Text
  pub timeout_ms : ℤ
  pub hello_timeout_ms : ℤ
  pub ready_timeout_ms : ℤ
  pub restart_policy : ReadPolicy

pub record ParameterConfig (D : Doubles) : Type 0 where
  pub param_name : Text
  pub param_type : ParameterType
  pub default_value : ParameterValue D
  pub param_min : Option D.Double
  pub param_max : Option D.Double
  pub param_allowed : List Text

pub record HookConfig (D : Doubles) : Type 0 where
  pub hook_from : Text
  pub hook_to : Text
  pub fail_on_error : Bool
  pub hook_calls : List (CallConfig D)

pub record AutomationConfig (D : Doubles) : Type 0 where
  pub automation_enabled : Bool
  pub behavior_tree : Text
  pub tick_rate_hz : ℤ
  pub max_consecutive_call_failures : ℤ
  pub parameters : List (ParameterConfig D)
  pub before_transition : List (HookConfig D)
  pub after_transition : List (HookConfig D)

pub record RuntimeConfig (D : Doubles) : Type 0 where
  pub shutdown_timeout_ms : ℤ
  pub startup_timeout_ms : ℤ
  pub http : HttpConfig
  pub providers : List ProviderConfig
  pub polling_interval_ms : ℤ
  pub warn_after_ms : ℤ
  pub stale_after_ms : ℤ
  pub log_level : Text
  pub automation : AutomationConfig D
  pub safe_state : SafeStateConfig D

pub data ConfigError : Type 0 where
  bad_shutdown_timeout bad_startup_timeout bad_port bad_thread_pool : ConfigError
  wildcard_with_credentials no_auth_token insecure_bind half_tls : ConfigError
  no_providers no_provider_id bad_poll_interval bad_staleness stale_before_warn : ConfigError
  bad_log_level no_tree bad_tick_rate bad_call_failures no_parameter_name : ConfigError
  duplicate_provider no_command bad_timeout bad_hello_timeout bad_ready_timeout : Text → ConfigError
  bad_max_attempts no_backoff backoff_length negative_backoff : Text → ConfigError
  bad_restart_timeout bad_success_reset : Text → ConfigError
  default_type bounds_not_numeric bounds_crossed allowed_not_string : Text → ConfigError
  bad_from_mode bad_to_mode no_calls no_call_device no_call_function : ConfigError

-- A check that returns an error where its condition holds, and the checks after it.
abbrev pub refuse_if : Bool → ConfigError → Option ConfigError
refuse_if true e = some e
refuse_if false e = none

infixr 10 ◌andthen◌
abbrev pub ◌andthen◌ : Option ConfigError → Option ConfigError → Option ConfigError
some e andthen next = some e
none andthen next = next

abbrev pub check_each {ℓ} : {A : Type ℓ} → (A → Option ConfigError) → List A → Option ConfigError
check_each check [] = none
check_each check (x ∷ xs) = check x andthen check_each check xs

-- Outside of the two bounds.
abbrev pub is_outside : ℤ → ℕ → ℕ → Bool
is_outside n low high = ltb_ℤ n (pos low) || ltb_ℤ (pos high) n

unfoldable pub is_loopback_bind : Text → Bool
unfolding starts_with
is_loopback_bind bind =
    text_eq bind (codes "127.0.0.1")
    || text_eq bind (codes "::1")
    || text_eq bind (codes "localhost")
    || starts_with bind (codes "127.")

unfoldable pub is_valid_mode_name : Text → Bool
is_valid_mode_name name =
    text_eq name (codes "MANUAL")
    || text_eq name (codes "AUTO")
    || text_eq name (codes "IDLE")
    || text_eq name (codes "FAULT")
    || text_eq name (codes "*")

unfoldable pub validate_http : HttpConfig → Option ConfigError
unfolding is_loopback_bind
validate_http h =
    if not h.http_enabled
    then none
    else refuse_if (is_outside h.port 1 65535) bad_port
      andthen refuse_if (ltb_ℤ h.thread_pool_size (pos 1)) bad_thread_pool
      andthen refuse_if
          (h.cors_allow_credentials && any (λ o. text_eq o (codes "*")) h.cors_allowed_origins)
          wildcard_with_credentials
      andthen refuse_if (h.auth_enabled && is_empty h.auth_token) no_auth_token
      andthen refuse_if
          (not (is_loopback_bind h.bind) && (not h.auth_enabled && not h.allow_insecure_bind))
          insecure_bind
      andthen refuse_if
          ((is_empty h.tls_cert_path && not (is_empty h.tls_key_path))
            || (not (is_empty h.tls_cert_path) && is_empty h.tls_key_path))
          half_tls

unfoldable pub validate_restart : Text → ReadPolicy → Option ConfigError
validate_restart id p =
    if not p.restart_enabled
    then none
    else refuse_if (ltb_ℤ p.read_max_attempts (pos 1)) (bad_max_attempts id)
      andthen refuse_if (is_empty p.read_backoff_ms) (no_backoff id)
      andthen refuse_if (not (eqb (length p.read_backoff_ms) (pos_part p.read_max_attempts)))
          (backoff_length id)
      andthen refuse_if (any (λ n. ltb_ℤ n (pos 0)) p.read_backoff_ms) (negative_backoff id)
      andthen refuse_if (ltb_ℤ p.read_timeout_ms (pos 1000)) (bad_restart_timeout id)
      andthen refuse_if (ltb_ℤ p.read_success_reset_ms (pos 0)) (bad_success_reset id)

unfoldable pub validate_provider : List Text → ProviderConfig → Option ConfigError
unfolding contains validate_restart
validate_provider seen p =
    refuse_if (is_empty p.id) no_provider_id
    andthen refuse_if (contains p.id seen) (duplicate_provider p.id)
    andthen refuse_if (is_empty p.command) (no_command p.id)
    andthen refuse_if (ltb_ℤ p.timeout_ms (pos 100)) (bad_timeout p.id)
    andthen refuse_if (ltb_ℤ p.hello_timeout_ms (pos 100)) (bad_hello_timeout p.id)
    andthen refuse_if (ltb_ℤ p.ready_timeout_ms (pos 1000)) (bad_ready_timeout p.id)
    andthen validate_restart p.id p.restart_policy

-- The loop over the providers, with the ids seen so far.
unfoldable pub validate_providers : List Text → List ProviderConfig → Option ConfigError
unfolding validate_provider
validate_providers seen [] = none
validate_providers seen (p ∷ ps) =
    validate_provider seen p andthen validate_providers (p.id ∷ seen) ps

unfoldable pub validate_staleness : ℤ → ℤ → Option ConfigError
validate_staleness warn stale =
    refuse_if (ltb_ℤ warn (pos 0) || ltb_ℤ stale (pos 0)) bad_staleness
    andthen refuse_if (ltb_ℤ (pos 0) warn && (ltb_ℤ (pos 0) stale && not (ltb_ℤ warn stale)))
        stale_before_warn

unfoldable pub is_log_level : Text → Bool
is_log_level level =
    text_eq level (codes "debug")
    || text_eq level (codes "info")
    || text_eq level (codes "warn")
    || text_eq level (codes "error")

module _ {D : Doubles} where
  abbrev pub is_numeric : ParameterConfig D → Bool
  is_numeric p = elim p.param_type [ double_parameter ↦ true | int64_parameter ↦ true | _ ↦ false ]

  abbrev pub is_string : ParameterConfig D → Bool
  is_string p = elim p.param_type [ string_parameter ↦ true | _ ↦ false ]

  abbrev pub is_crossed : ParameterConfig D → Bool
  is_crossed p = elim p.param_min as (λ _. Bool) [
    | none ↦ false
    | some low ↦ elim p.param_max as (λ _. Bool) [ none ↦ false | some high ↦ D.double_lt high low ]
  ]

  unfoldable pub validate_parameter : ParameterConfig D → Option ConfigError
  unfolding parameter_value_matches_type
  validate_parameter p =
      refuse_if (is_empty p.param_name) no_parameter_name
      andthen refuse_if (not (parameter_value_matches_type p.param_type p.default_value))
          (default_type p.param_name)
      andthen refuse_if
          (not (is_numeric p) && (not (is_none p.param_min) || not (is_none p.param_max)))
          (bounds_not_numeric p.param_name)
      andthen refuse_if (is_crossed p) (bounds_crossed p.param_name)
      andthen refuse_if (not (is_string p) && not (is_empty p.param_allowed))
          (allowed_not_string p.param_name)

  -- The check of a call in a hook, and of one of the safe state.
  unfoldable pub validate_call_config : CallConfig D → Option ConfigError
  validate_call_config c =
      refuse_if (is_empty c.call_handle) no_call_device
      andthen refuse_if (eqb c.call_function_id 0 && is_empty c.call_function_name) no_call_function

  unfoldable pub validate_hook : HookConfig D → Option ConfigError
  unfolding is_valid_mode_name validate_call_config
  validate_hook h =
      refuse_if (not (is_empty h.hook_from) && not (is_valid_mode_name h.hook_from)) bad_from_mode
      andthen refuse_if (not (is_empty h.hook_to) && not (is_valid_mode_name h.hook_to)) bad_to_mode
      andthen refuse_if (is_empty h.hook_calls) no_calls
      andthen check_each validate_call_config h.hook_calls

  unfoldable pub validate_automation : AutomationConfig D → Option ConfigError
  unfolding validate_parameter validate_hook
  validate_automation a =
      if not a.automation_enabled
      then none
      else refuse_if (is_empty a.behavior_tree) no_tree
        andthen refuse_if (is_outside a.tick_rate_hz 1 1000) bad_tick_rate
        andthen refuse_if (ltb_ℤ a.max_consecutive_call_failures (pos 1)) bad_call_failures
        andthen check_each validate_parameter a.parameters
        andthen check_each validate_hook a.before_transition
        andthen check_each validate_hook a.after_transition

  unfoldable pub validate_config : RuntimeConfig D → Option ConfigError
  unfolding validate_http validate_providers validate_staleness is_log_level validate_automation
      validate_call_config
  validate_config c =
      refuse_if (is_outside c.shutdown_timeout_ms 500 30000) bad_shutdown_timeout
      andthen refuse_if (is_outside c.startup_timeout_ms 5000 300000) bad_startup_timeout
      andthen validate_http c.http
      andthen refuse_if (is_empty c.providers) no_providers
      andthen validate_providers [] c.providers
      andthen refuse_if (ltb_ℤ c.polling_interval_ms (pos 100)) bad_poll_interval
      andthen validate_staleness c.warn_after_ms c.stale_after_ms
      andthen refuse_if (not (is_log_level c.log_level)) bad_log_level
      andthen validate_automation c.automation
      andthen check_each validate_call_config c.safe_state.hooks
      andthen check_each validate_call_config c.safe_state.setpoints

-- What the supervisor is given.
unfoldable pub policy_of : ReadPolicy → RestartPolicyConfig
policy_of p = record {
  enabled = p.restart_enabled;
  max_attempts = pos_part p.read_max_attempts;
  backoff_ms = map pos_part p.read_backoff_ms;
  timeout_ms = pos_part p.read_timeout_ms;
  success_reset_ms = pos_part p.read_success_reset_ms;
}

-- is_handle: the parts so far, and whether the current one is empty.
unfoldable pub is_handle_from : Bool → ℕ → ℕ → Text → Bool
is_handle_from at_start count parts [] = not at_start && eqb count parts
is_handle_from at_start count parts (x ∷ xs) =
    let is_slash = eqb x 47 in
    let rest = is_handle_from is_slash (if is_slash then suc count else count) parts xs in
    not (is_slash && at_start) && rest

unfoldable pub is_handle : Text → ℕ → Bool
unfolding is_handle_from
is_handle value parts = is_handle_from true 1 parts value
