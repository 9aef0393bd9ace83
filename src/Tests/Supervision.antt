-- ===== src/Tests/Supervision.antt =====
-- Two supervised providers, one crash streak and one outage.
use anolis.Base.{
  ◌≡◌, refl, true, false, none, some, arith, Text, codes, List, [], ◌∷◌, find, assign, text_key,
}
use anolis.Supervisor.{
  RestartPolicyConfig, RestartState, ProviderSupervisor, register_provider, apply, Op, registers,
  crashes, beats, record_crash, should_restart, get_attempt_count, is_circuit_open, policy_is_valid,
  fresh_state, record_heartbeat, should_mark_recovered, mark_crash_detected, clear_crash_detected,
}
use anolis.Supervisor.Snapshot.{ProviderSupervisionSnapshot}
use anolis.Supervisor.Invariant.{Inv}
use anolis.Supervisor.History.{apply_all, apply_all-total, new_supervisor, new_supervisor-Inv}
use anolis.Supervisor.Streak.{crash_all, crash_budget}
use anolis.Supervisor.Recovery.{beat_all, recovery_window}
use anolis.Supervisor.Loop.{Loop, Sighting, visit}
use anolis.Supervisor.Outage.{visit_starts_allowed, StartedBy}

abbrev sim : Text
sim = codes "sim0"

abbrev bread : Text
bread = codes "bread0"

abbrev policy : RestartPolicyConfig
policy = record {
  enabled = true;
  max_attempts = 2;
  backoff_ms = 100 ∷ 1000 ∷ [];
  timeout_ms = 30000;
  success_reset_ms = 1000;
}

abbrev empty : ProviderSupervisor
empty = new_supervisor 60000

abbrev one : ProviderSupervisor
one = record {
  probe_interval = 60000;
  policies = (sim, policy) ∷ [];
  states = (sim, fresh_state) ∷ [];
}

abbrev crashed_state : RestartState
crashed_state = record fresh_state { attempt_count = 1; next_restart_time = 100000005 }

abbrev crashed : ProviderSupervisor
crashed = record one { states = (sim, crashed_state) ∷ [] }

abbrev spent_state : RestartState
spent_state = record fresh_state { attempt_count = 3; circuit_open = true; next_restart_time = 7 }

abbrev spent : ProviderSupervisor
spent = record one { states = (sim, spent_state) ∷ [] }

abbrev history : List Op
history = registers sim policy ∷ crashes sim 5 ∷ beats sim 9 ∷ crashes bread 3 ∷ []

history_runs :
    apply_all empty history
    ≡ some (record one {
      states = (sim, record crashed_state { process_start_time = 9; last_healthy_time = 9 }) ∷ [];
    })
unfolding apply_all apply register_provider record_crash record_heartbeat find assign
history_runs = refl

apply_all-total_example : (s : ProviderSupervisor) × (apply_all empty history ≡ some s) × Inv s
unfolding policy_is_valid
apply_all-total_example =
    apply_all-total empty history (new_supervisor-Inv 60000) (refl, (tt, (tt, (tt, tt))))

crash_budget_example :
    (s : ProviderSupervisor) × (crash_all
        (register_provider empty sim policy)
        sim
        true
        (1 ∷ 2 ∷ 3 ∷ [])
      ≡ some (s, false))
    × (get_attempt_count s sim ≡ 3)
    × (is_circuit_open s sim ≡ true)
unfolding policy_is_valid
crash_budget_example = crash_budget empty sim policy (1 ∷ 2 ∷ 3 ∷ []) refl refl

recovery_window_example :
    should_mark_recovered (beat_all (record_heartbeat crashed sim 7) sim (8 ∷ [])) sim 1000000007
    ≡ true
unfolding record_crash find assign
recovery_window_example =
    recovery_window one crashed sim policy fresh_state 5 7 1000000007 (8 ∷ []) (refl, refl) refl
      refl (omega arith)

abbrev waiting_snapshot : ProviderSupervisionSnapshot
waiting_snapshot = record {
  supervision_enabled = true;
  snapshot_attempt_count = 1;
  snapshot_max_attempts = 2;
  snapshot_crash_detected = false;
  snapshot_circuit_open = false;
  next_restart_in_ms = some 100;
  last_seen_ago_ms = none;
  uptime_seconds = 0;
}

abbrev down : Sighting
down = record { registered = true; available = false; first = 100000006; second = 100000007 }

abbrev later : Sighting
later = record down { first = 200000006; second = 200000007 }

abbrev marked : ProviderSupervisor
marked = record one { states = (sim, record crashed_state { crash_detected = true }) ∷ [] }

abbrev idle_loop : Loop
idle_loop = record {
  supervisor = marked;
  in_flight = false;
  restarting_id = [];
  restart_is_probe = false;
}

abbrev restarting : Loop
restarting = record {
  supervisor = crashed;
  in_flight = true;
  restarting_id = sim;
  restart_is_probe = false;
}

abbrev other_restarting : Loop
other_restarting = record idle_loop { in_flight = true; restarting_id = bread }

visit_starts_allowed_example :
    (down.available ≡ false)
    × (restarting.restarting_id ≡ sim)
    × StartedBy idle_loop restarting sim down
unfolding visit find assign is_circuit_open mark_crash_detected should_restart clear_crash_detected
visit_starts_allowed_example = visit_starts_allowed idle_loop restarting sim down refl refl refl
