-- ===== src/Supervisor/Snapshot.antt =====
-- The snapshots of the supervisor that the health surfaces read.
use anolis.Base.{
  ℕ, ◌-◌, ◌/◌, Bool, ◌||◌, Option, none, some, List, [], ◌∷◌, leb, eqb, if◌then◌else◌, Text, Map,
  text_key,
}
use anolis.Supervisor.{RestartState, ProviderSupervisor, to_ms, entry}

pub record ProviderSupervisionSnapshot : Type 0 where
  pub supervision_enabled : Bool
  pub snapshot_attempt_count : ℕ
  pub snapshot_max_attempts : ℕ
  pub snapshot_crash_detected : Bool
  pub snapshot_circuit_open : Bool
  pub next_restart_in_ms : Option ℕ
  pub last_seen_ago_ms : Option ℕ
  pub uptime_seconds : ℕ

unfoldable pub get_snapshot : ProviderSupervisor → Text → ℕ → Option ProviderSupervisionSnapshot
unfolding entry
get_snapshot s id now = elim (entry s id) [
  | none ↦ none
  | some (policy, state) ↦ some (record {
    supervision_enabled = policy.enabled;
    snapshot_attempt_count = state.attempt_count;
    snapshot_max_attempts = policy.max_attempts;
    snapshot_crash_detected = state.crash_detected;
    snapshot_circuit_open = state.circuit_open;
    next_restart_in_ms =
        if state.circuit_open || eqb state.attempt_count 0
        then none
        else if leb state.next_restart_time now
        then some 0
        else some (to_ms (state.next_restart_time - now));
    last_seen_ago_ms =
        if eqb state.last_healthy_time 0
        then none
        else some (to_ms (now - state.last_healthy_time));
    uptime_seconds =
        if eqb state.process_start_time 0 then 0 else (now - state.process_start_time) / 1000000000;
  })
]

-- The loop of get_all_snapshots over the ids: each snapshot reads the clock itself.
unfoldable pub snapshots_of :
    ProviderSupervisor
    → (Text → ℕ)
    → List (Text × RestartState)
    → Map Text ProviderSupervisionSnapshot
snapshots_of s now [] = []
snapshots_of s now ((id, _) ∷ ids) =
    let rest = snapshots_of s now ids in
    elim (get_snapshot s id (now id)) [ none ↦ rest | some snap ↦ (id, snap) ∷ rest ]

unfoldable pub get_all_snapshots :
    ProviderSupervisor → (Text → ℕ) → Map Text ProviderSupervisionSnapshot
unfolding snapshots_of
get_all_snapshots s now = snapshots_of s now s.states
