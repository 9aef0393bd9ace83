-- ===== src/Tests/Configs.antt =====
-- A configuration that is accepted, and parameters at work.
use mathlib.Core.List.{Perm}
use anolis.Base.{
  ◌≡◌, ◌↔◌, refl, true, false, none, some, List, [], ◌∷◌, ◌++◌, codes, pos, text_key, find, assign,
  contains, starts_with,
}
use anolis.SafeState.{parameter_int64, ParameterValue}
use anolis.Parameters.{
  int64_parameter, ParameterDef, validate, new_manager, get, ParameterManager, ParameterChange,
}
use anolis.Parameters.Validation.{Accepts, validate_exact}
use anolis.Parameters.Histories.{
  ParameterOp, defines, sets, listens, perform, perform_all, times, told, Chain, values_stay_valid,
}
use anolis.Parameters.Threads.{
  ThreadStep, enters, calls_back, thread_steps, joined, told_each_change,
}
use anolis.Config.{HttpConfig, ReadPolicy, ProviderConfig, RuntimeConfig, validate_config}
use anolis.Config.Accepted.{ConfigAccepted, config_exact}
use anolis.Tests.Rig.{whole_doubles}

abbrev local_http : HttpConfig
local_http = record {
  http_enabled = true;
  bind = codes "127.0.0.1";
  port = pos 8080;
  cors_allowed_origins = [];
  cors_allow_credentials = false;
  thread_pool_size = pos 40;
  auth_enabled = false;
  auth_token = [];
  allow_insecure_bind = false;
  tls_cert_path = [];
  tls_key_path = [];
}

abbrev twice : ReadPolicy
twice = record {
  restart_enabled = true;
  read_max_attempts = pos 2;
  read_backoff_ms = pos 100 ∷ pos 500 ∷ [];
  read_timeout_ms = pos 30000;
  read_success_reset_ms = pos 0;
}

abbrev sim_provider : ProviderConfig
sim_provider = record {
  id = codes "sim0";
  command = codes "sim";
  timeout_ms = pos 5000;
  hello_timeout_ms = pos 5000;
  ready_timeout_ms = pos 60000;
  restart_policy = twice;
}

abbrev rig_config : RuntimeConfig whole_doubles
rig_config = record {
  shutdown_timeout_ms = pos 2000;
  startup_timeout_ms = pos 30000;
  http = local_http;
  providers = sim_provider ∷ [];
  polling_interval_ms = pos 500;
  warn_after_ms = pos 0;
  stale_after_ms = pos 0;
  log_level = codes "info";
  automation = record {
    automation_enabled = false;
    behavior_tree = [];
    tick_rate_hz = pos 10;
    max_consecutive_call_failures = pos 3;
    parameters = [];
    before_transition = [];
    after_transition = [];
  };
  safe_state = record { hooks = []; setpoints = []; zero_is_safe = false };
}

rig_accepted : validate_config rig_config ≡ none
unfolding validate_config starts_with contains
rig_accepted = refl

config_exact_example : (validate_config rig_config ≡ none) ↔ ConfigAccepted rig_config
config_exact_example = config_exact rig_config

abbrev speed_limit : ParameterDef whole_doubles
speed_limit = record {
  def_type = int64_parameter;
  def_value = parameter_int64 (pos 5);
  def_min = some (pos 0);
  def_max = some (pos 10);
  def_allowed = none;
  set_by_operator = false;
}

validate_exact_example :
    (validate speed_limit (parameter_int64 (pos 11)) ≡ none)
    ↔ Accepts speed_limit (parameter_int64 (pos 11))
validate_exact_example = validate_exact speed_limit (parameter_int64 (pos 11))

abbrev limit_ops : List (ParameterOp whole_doubles)
limit_ops =
    defines (codes "limit") int64_parameter (parameter_int64 (pos 5)) (some (pos 0)) (some (pos 10))
      none
    ∷ listens 1
    ∷ sets (codes "limit") (parameter_int64 (pos 11))
    ∷ sets (codes "limit") (parameter_int64 (pos 7))
    ∷ []

abbrev raised_limit : ParameterDef whole_doubles
raised_limit = record speed_limit { def_value = parameter_int64 (pos 7); set_by_operator = true }

limit_found :
    find (codes "limit") (perform_all new_manager limit_ops).0.parameters ≡ some raised_limit
unfolding perform_all perform find assign
limit_found = refl

values_stay_valid_example : Accepts raised_limit (parameter_int64 (pos 7))
values_stay_valid_example = values_stay_valid limit_ops (codes "limit") raised_limit limit_found

abbrev watched_manager : ParameterManager whole_doubles
watched_manager = record { parameters = (codes "limit", speed_limit) ∷ []; callbacks = 1 ∷ [] }

abbrev limit_sets : List (ParameterOp whole_doubles)
limit_sets =
    sets (codes "limit") (parameter_int64 (pos 7))
    ∷ listens 2
    ∷ sets (codes "limit") (parameter_int64 (pos 3))
    ∷ []

limit_start : get watched_manager (codes "limit") ≡ some (parameter_int64 (pos 5))
unfolding get find
limit_start = refl

listens_once : times 1 watched_manager.callbacks ≡ 1
unfolding times
listens_once = refl

abbrev interleaved : List (ThreadStep whole_doubles)
interleaved =
    enters (sets (codes "limit") (parameter_int64 (pos 7)))
    ∷ enters (sets (codes "limit") (parameter_int64 (pos 9)))
    ∷ calls_back 1
    ∷ calls_back 0
    ∷ []

told_each_change_example :
    (w : ParameterValue whole_doubles) × (changes : List (ParameterChange whole_doubles)) × (get
        (thread_steps (record { shared = watched_manager; pending = [] }) interleaved).0.shared
        (codes "limit")
      ≡ some w)
    × Chain (codes "limit") (parameter_int64 (pos 5)) changes w
    × Perm
        (told 1 (thread_steps (record { shared = watched_manager; pending = [] }) interleaved).1
          ++ told 1 (
              joined
                (thread_steps
                  (record { shared = watched_manager; pending = [] })
                  interleaved).0.pending))
        changes
told_each_change_example =
    told_each_change watched_manager interleaved 1 (codes "limit") (parameter_int64 (pos 5))
      listens_once (tt, (tt, tt)) limit_start
