-- ===== src/Supervisor.antt =====
-- core/provider/provider_supervisor.{hpp,cpp} and RestartPolicyConfig of provider_config.hpp: crash
-- streaks, restart back-off and the circuit breaker of each provider.
-- A steady_clock time point is its count of nanoseconds since the epoch, which the class uses as
-- "unset"; each method takes the reading of the clock that it makes. An `int` of the policy is a ℕ:
-- the loader refuses negative numbers in an enabled policy; of a disabled one only the snapshot reports
-- max_attempts, which is then taken to be no less than 0. A result `none` is the out-of-bounds read that an empty `backoff_ms` would give.
pub mod Invariant
pub mod Update
pub mod History
pub mod Streak
pub mod Recovery
pub mod Loop
pub mod Outage
pub mod Snapshot
use anolis.Base.{
  ℕ, suc, ◌+◌, ◌-◌, ◌*◌, ◌/◌, Bool, true, false, not, ◌||◌, ◌&&◌, Option, none, some, List, [], ◌∷◌,
  ltb, leb, eqb, if◌then◌else◌, length, get_elem?, Text, Map, find, assign, text_key,
}

pub record RestartPolicyConfig : Type 0 where
  pub enabled : Bool
  pub max_attempts : ℕ
  pub backoff_ms : List ℕ
  pub timeout_ms : ℕ
  pub success_reset_ms : ℕ

-- The checks that the configuration loader makes of an enabled policy.
unfoldable pub policy_is_valid : RestartPolicyConfig → Bool
policy_is_valid p =
    if p.enabled
    then not (ltb p.max_attempts 1)
      && not (eqb (length p.backoff_ms) 0)
      && eqb (length p.backoff_ms) p.max_attempts
      && not (ltb p.timeout_ms 1000)
    else true

pub record RestartState : Type 0 where
  pub attempt_count : ℕ
  pub circuit_open : Bool
  pub crash_detected : Bool
  pub next_restart_time : ℕ
  pub process_start_time : ℕ
  pub last_healthy_time : ℕ

pub record ProviderSupervisor : Type 0 where
  pub probe_interval : ℕ
  pub policies : Map Text RestartPolicyConfig
  pub states : Map Text RestartState

-- std::chrono::milliseconds as nanoseconds, and duration_cast the other way.
abbrev pub ms : ℕ → ℕ
ms n = n * 1000000

abbrev pub to_ms : ℕ → ℕ
to_ms ns = ns / 1000000

abbrev pub fresh_state : RestartState
fresh_state = record {
  attempt_count = 0;
  circuit_open = false;
  crash_detected = false;
  next_restart_time = 0;
  process_start_time = 0;
  last_healthy_time = 0;
}

-- The two lookups with which most methods begin.
unfoldable pub entry : ProviderSupervisor → Text → Option (RestartPolicyConfig × RestartState)
entry s id = elim (find id s.policies) [
  | none ↦ none
  | some policy ↦ elim (find id s.states) [ none ↦ none | some state ↦ some (policy, state) ]
]

abbrev pub put_state : ProviderSupervisor → Text → RestartState → ProviderSupervisor
put_state s id state = record s { states = assign id state s.states }

unfoldable pub register_provider :
    ProviderSupervisor → Text → RestartPolicyConfig → ProviderSupervisor
register_provider s id policy = record s {
  policies = assign id policy s.policies;
  states = assign id fresh_state s.states;
}

unfoldable pub should_restart : ProviderSupervisor → Text → ℕ → Bool
unfolding entry
should_restart s id now = elim (entry s id) [
  | none ↦ false
  | some (policy, state) ↦
      if not policy.enabled
      then false
      else if state.circuit_open
      then false
      else if ltb now state.next_restart_time
      then false
      else true
]

-- `backoff_ms[attempt_index]` with the index clamped to the last entry.
unfoldable pub clamped_backoff : List ℕ → ℕ → Option ℕ
clamped_backoff backoff index =
    get_elem? backoff (if leb (length backoff) index then length backoff - 1 else index)

unfoldable pub get_backoff_ms : ProviderSupervisor → Text → Option ℕ
unfolding entry clamped_backoff
get_backoff_ms s id = elim (entry s id) [
  | none ↦ some 0
  | some (policy, state) ↦
      if eqb state.attempt_count 0 || state.circuit_open
      then some 0
      else clamped_backoff policy.backoff_ms (state.attempt_count - 1)
]

-- The part of record_crash after the lookups.
unfoldable pub crash : ℕ → RestartPolicyConfig → RestartState → ℕ → Option (RestartState × Bool)
unfolding clamped_backoff
crash probe_interval policy state now =
    let counted : RestartState = record state {
      attempt_count = suc state.attempt_count;
      process_start_time = 0;
    } in
    if not policy.enabled
    then some (record state { circuit_open = true }, false)
    else if ltb policy.max_attempts (suc state.attempt_count)
    then some
        (record counted { circuit_open = true; next_restart_time = now + ms probe_interval }, false)
    else elim (clamped_backoff policy.backoff_ms state.attempt_count) [
      | none ↦ none
      | some backoff ↦ some (record counted { next_restart_time = now + ms backoff }, true)
    ]

unfoldable pub record_crash : ProviderSupervisor → Text → ℕ → Option (ProviderSupervisor × Bool)
unfolding entry crash
record_crash s id now = elim (entry s id) [
  | none ↦ some (s, false)
  | some (policy, state) ↦ elim (crash s.probe_interval policy state now) [
    | none ↦ none
    | some (state', retry) ↦ some (put_state s id state', retry)
  ]
]

unfoldable pub is_circuit_open : ProviderSupervisor → Text → Bool
is_circuit_open s id = elim (find id s.states) [ none ↦ false | some state ↦ state.circuit_open ]

unfoldable pub should_probe : ProviderSupervisor → Text → ℕ → Bool
unfolding entry
should_probe s id now = elim (entry s id) [
  | none ↦ false
  | some (policy, state) ↦
      if not policy.enabled || not state.circuit_open
      then false
      else leb state.next_restart_time now
]

-- What a probe, a recovery and a heartbeat write into a provider's state.
abbrev pub probed_state : ℕ → RestartState → Bool → ℕ → RestartState
probed_state probe_interval state restarted now =
    if restarted
    then record state { circuit_open = false; crash_detected = false }
    else record state { next_restart_time = now + ms probe_interval }

abbrev pub recovered_state : RestartState → RestartState
recovered_state state = record state {
  attempt_count = 0;
  circuit_open = false;
  crash_detected = false;
  next_restart_time = 0;
}

abbrev pub beat_state : RestartState → ℕ → RestartState
beat_state state now = record state {
  process_start_time = if eqb state.process_start_time 0 then now else state.process_start_time;
  last_healthy_time = now;
}

unfoldable pub record_probe_result : ProviderSupervisor → Text → Bool → ℕ → ProviderSupervisor
record_probe_result s id restarted now = elim (find id s.states) [
  | none ↦ s
  | some state ↦ put_state s id (probed_state s.probe_interval state restarted now)
]

unfoldable pub get_attempt_count : ProviderSupervisor → Text → ℕ
get_attempt_count s id = elim (find id s.states) [ none ↦ 0 | some state ↦ state.attempt_count ]

unfoldable pub record_success : ProviderSupervisor → Text → ProviderSupervisor
record_success s id = elim (find id s.states) [
  | none ↦ s
  | some state ↦ put_state s id (recovered_state state)
]

unfoldable pub should_mark_recovered : ProviderSupervisor → Text → ℕ → Bool
unfolding entry
should_mark_recovered s id now = elim (entry s id) [
  | none ↦ false
  | some (policy, state) ↦
      if not policy.enabled || state.circuit_open || eqb state.attempt_count 0
      then false
      else if eqb state.process_start_time 0
      then false
      else leb policy.success_reset_ms (to_ms (now - state.process_start_time))
]

unfoldable pub mark_crash_detected : ProviderSupervisor → Text → ProviderSupervisor × Bool
mark_crash_detected s id = elim (find id s.states) [
  | none ↦ (s, false)
  | some state ↦
      if state.crash_detected
      then (s, false)
      else (put_state s id (record state { crash_detected = true }), true)
]

unfoldable pub clear_crash_detected : ProviderSupervisor → Text → ProviderSupervisor
clear_crash_detected s id = elim (find id s.states) [
  | none ↦ s
  | some state ↦ put_state s id (record state { crash_detected = false })
]

unfoldable pub record_heartbeat : ProviderSupervisor → Text → ℕ → ProviderSupervisor
record_heartbeat s id now = elim (find id s.states) [
  | none ↦ s
  | some state ↦ put_state s id (beat_state state now)
]

-- The calls that change the supervisor, and their effect; `none` is the fault of record_crash.
pub data Op : Type 0 where
  registers : Text → RestartPolicyConfig → Op
  crashes : Text → ℕ → Op
  probed : Text → Bool → ℕ → Op
  succeeds marks clears : Text → Op
  beats : Text → ℕ → Op

unfoldable pub apply : ProviderSupervisor → Op → Option ProviderSupervisor
apply s (registers id policy) = some (register_provider s id policy)
apply s (crashes id now) = elim (record_crash s id now) [ none ↦ none | some (s', _) ↦ some s' ]
apply s (probed id restarted now) = some (record_probe_result s id restarted now)
apply s (succeeds id) = some (record_success s id)
apply s (marks id) = some (mark_crash_detected s id).0
apply s (clears id) = some (clear_crash_detected s id)
apply s (beats id now) = some (record_heartbeat s id now)
