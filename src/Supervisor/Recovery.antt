-- ===== src/Supervisor/Recovery.antt =====
-- Heartbeats, recovery and the snapshot that the HTTP handlers read.
use anolis.Base.{
  ℕ, suc, ◌-◌, ◌+◌, ◌<◌, ◌≡◌, refl, true, false, none, some, arith, Text, text_key, List, [], ◌∷◌,
  leb, eqb, if◌then◌else◌, Option-cases, inl, inr,
}
use anolis.Supervisor.{
  RestartPolicyConfig, RestartState, ProviderSupervisor, record_crash, crash, clamped_backoff,
  should_restart, should_mark_recovered, should_probe, record_success, record_heartbeat,
  get_attempt_count, put_state, beat_state, recovered_state, ms, to_ms,
}
use anolis.Supervisor.Snapshot.{ProviderSupervisionSnapshot, get_snapshot}
use anolis.Supervisor.Streak.{Registered, put_state-Registered, entry_of_Registered}

unfoldable pub beat_all : ProviderSupervisor → Text → List ℕ → ProviderSupervisor
beat_all s id [] = s
beat_all s id (now ∷ times) = beat_all (record_heartbeat s id now) id times

record_heartbeat-Registered :
    (s : ProviderSupervisor) (id : Text) (now : ℕ) (p : RestartPolicyConfig) (t : RestartState)
    → Registered s id p t
    → Registered (record_heartbeat s id now) id p (beat_state t now)
unfolding record_heartbeat
record_heartbeat-Registered s id now p t r =
    ground (arith, put_state-Registered s id p t (beat_state t now) r)

-- What recovery reads of a provider whose process has been seen alive since the time `start`.
abbrev AliveSince : ℕ → RestartState → Type 0
AliveSince start t =
    (t.circuit_open ≡ false) × (0 < t.attempt_count) × (t.process_start_time ≡ start)

-- Heartbeats after the first leave the start of the window alone.
beat_all-AliveSince :
    (s : ProviderSupervisor) (id : Text) (p : RestartPolicyConfig) (t : RestartState) (start : ℕ)
    (times : List ℕ)
    → 0 < start
    → Registered s id p t
    → AliveSince start t
    → (t' : RestartState) × Registered (beat_all s id times) id p t' × AliveSince start t'
unfolding beat_all
beat_all-AliveSince s id p t start [] pos r a = (t, r, a)
beat_all-AliveSince s id p t start (now ∷ times) pos r a =
    beat_all-AliveSince (record_heartbeat s id now) id p (beat_state t now) start times pos
      (record_heartbeat-Registered s id now p t r) (ground arith)

-- A crash that was granted a restart leaves the circuit as it was and no process start.
record_crash_granted :
    (s s' : ProviderSupervisor) (id : Text) (now : ℕ) (p : RestartPolicyConfig) (t : RestartState)
    → Registered s id p t
    → record_crash s id now ≡ some (s', true)
    → (t' : RestartState) × Registered s' id p t'
      × (p.enabled ≡ true)
      × (t'.circuit_open ≡ t.circuit_open)
      × (t'.attempt_count ≡ suc t.attempt_count)
      × (t'.process_start_time ≡ 0)
unfolding record_crash crash
record_crash_granted s s' id now p t r e =
    elim (Option-cases (clamped_backoff p.backoff_ms t.attempt_count)) [
      | inl fault ↦ absurd (ground (arith, entry_of_Registered s id r))
      | inr (b, h) ↦
          let t' : RestartState = record t {
            attempt_count = suc t.attempt_count;
            process_start_time = 0;
            next_restart_time = now + ms b;
          } in
          let e' : s' ≡ put_state s id t' = ground (arith, entry_of_Registered s id r) in
          (
            t',
            rw e' (put_state-Registered s id p t t' r),
            ground (arith, entry_of_Registered s id r),
            refl,
            refl,
            refl,
          )
    ]

should_mark_recovered_of_AliveSince :
    (s : ProviderSupervisor) (id : Text) (p : RestartPolicyConfig) (t : RestartState)
    (start later : ℕ)
    → Registered s id p t
    → p.enabled ≡ true
    → 0 < start
    → AliveSince start t
    → should_mark_recovered s id later ≡ leb p.success_reset_ms (to_ms (later - start))
unfolding should_mark_recovered
should_mark_recovered_of_AliveSince s id p t start later r on pos a = ground arith

-- After a crash that is granted a restart, of a registered provider with a closed circuit, the provider
-- counts as recovered exactly when success_reset_ms have passed since the first heartbeat after the
-- crash, at a reading of the clock other than 0, however many heartbeats have followed that one.
pub recovery_window :
    (s s' : ProviderSupervisor) (id : Text) (p : RestartPolicyConfig) (t : RestartState)
    (crash_time first later : ℕ) (times : List ℕ)
    → Registered s id p t
    → t.circuit_open ≡ false
    → record_crash s id crash_time ≡ some (s', true)
    → 0 < first
    → should_mark_recovered (beat_all (record_heartbeat s' id first) id times) id later
      ≡ leb p.success_reset_ms (to_ms (later - first))
recovery_window s s' id p t crash_time first later times r closed e pos =
    let (t₁, r₁, on, open₁, count₁, start₁) = record_crash_granted s s' id crash_time p t r e in
    let r₂ = record_heartbeat-Registered s' id first p t₁ r₁ in
    let (t₃, r₃, a₃) =
      beat_all-AliveSince (record_heartbeat s' id first) id p (beat_state t₁ first) first times pos
        r₂ (ground arith) in
    should_mark_recovered_of_AliveSince _ id p t₃ first later r₃ on pos a₃

-- Recovery ends the streak: the attempt count is 0, the circuit is closed, no back-off is pending,
-- and the next crash of an enabled provider with a budget is its first.
pub record_success_resets :
    (s : ProviderSupervisor) (id : Text) (p : RestartPolicyConfig) (t : RestartState) (later : ℕ)
    → Registered s id p t
    → (get_attempt_count (record_success s id) id ≡ 0)
      × (should_mark_recovered (record_success s id) id later ≡ false)
      × (should_restart (record_success s id) id later ≡ p.enabled)
unfolding record_success get_attempt_count should_mark_recovered should_restart
record_success_resets s id p t later r =
    let r' = put_state-Registered s id p t (recovered_state t) r in
    let e : record_success s id ≡ put_state s id (recovered_state t) = ground arith in
    (rw e (ground (arith, r')), rw e (ground (arith, r')), rw e (ground (arith, r')))

-- The snapshot agrees with the decisions made at the same time: when a restart is allowed, the
-- snapshot shows a closed circuit, the getter's attempt count, and a wait of 0 during a streak, none
-- outside one.
pub get_snapshot-should_restart :
    (s : ProviderSupervisor) (id : Text) (now : ℕ) (snap : ProviderSupervisionSnapshot)
    → get_snapshot s id now ≡ some snap
    → should_restart s id now ≡ true
    → (snap.snapshot_circuit_open ≡ false)
      × (snap.snapshot_attempt_count ≡ get_attempt_count s id)
      × (snap.next_restart_in_ms ≡ (if eqb (get_attempt_count s id) 0 then none else some 0))
unfolding get_snapshot should_restart get_attempt_count
get_snapshot-should_restart s id now snap e h = ground arith

-- A positive wait in the snapshot means that neither a restart nor a probe is due, now or at any
-- time before the wait is over.
pub get_snapshot_wait :
    (s : ProviderSupervisor) (id : Text) (now later wait : ℕ) (snap : ProviderSupervisionSnapshot)
    → get_snapshot s id now ≡ some snap
    → snap.next_restart_in_ms ≡ some (suc wait)
    → later < now + ms (suc wait)
    → (should_restart s id later ≡ false) × (should_probe s id later ≡ false)
unfolding get_snapshot should_restart should_probe
get_snapshot_wait s id now later wait snap e h early = ground arith
