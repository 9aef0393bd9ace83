-- ===== src/Supervisor/Streak.antt =====
-- Crash streaks: how a provider's crashes use up its budget, the back-off between them, and the
-- circuit that opens when the budget is spent.
use anolis.Base.{
  ℕ, suc, ◌+◌, ◌<◌, ◌≡◌, Bool, true, false, Option, none, some, arith, length, Text, find,
  find-assign, beq_refl, text_key, List, [], ◌∷◌, ltb, leb, Option-cases, inl, inr, Bool-cases,
}
use anolis.Supervisor.{
  RestartPolicyConfig, RestartState, ProviderSupervisor, policy_is_valid, entry, register_provider,
  clamped_backoff, crash, record_crash, record_probe_result, should_restart, get_backoff_ms,
  is_circuit_open, should_probe, get_attempt_count, put_state, fresh_state, ms, policy_is_valid,
  probed_state,
}
use anolis.Supervisor.Invariant.{clamped_backoff-total}

-- What the lookups of a registered provider find.
abbrev pub Registered : ProviderSupervisor → Text → RestartPolicyConfig → RestartState → Type 0
Registered s id p t = (find id s.policies ≡ some p) × (find id s.states ≡ some t)

pub register_provider-Registered :
    (s : ProviderSupervisor) (id : Text) (p : RestartPolicyConfig)
    → Registered (register_provider s id p) id p fresh_state
unfolding register_provider
register_provider-Registered s id p =
    ground
      (arith, find-assign id id p s.policies, find-assign id id fresh_state s.states, beq_refl id)

pub put_state-Registered :
    (s : ProviderSupervisor) (id : Text) (p : RestartPolicyConfig) (t t' : RestartState)
    → Registered s id p t
    → Registered (put_state s id t') id p t'
put_state-Registered s id p t t' r = ground (arith, find-assign id id t' s.states, beq_refl id)

pub entry_of_Registered :
    (s : ProviderSupervisor) (id : Text) {p : RestartPolicyConfig} {t : RestartState}
    → Registered s id p t
    → entry s id ≡ some (p, t)
unfolding entry
entry_of_Registered s id r = ground arith

-- The state of a provider after n crashes in a row since it was registered.
abbrev Streak : RestartPolicyConfig → ℕ → RestartState → Type 0
Streak p n t = (t.attempt_count ≡ n) × (t.circuit_open ≡ ltb p.max_attempts n)

crash-Streak :
    (interval now n : ℕ) (p : RestartPolicyConfig) (t : RestartState)
    → p.enabled ≡ true
    → 0 < length p.backoff_ms
    → Streak p n t
    → (t' : RestartState) × (crash interval p t now ≡ some (t', leb (suc n) p.max_attempts))
      × Streak p (suc n) t'
unfolding crash
crash-Streak interval now n p t on fits k = elim (Bool-cases (ltb p.max_attempts (suc n))) [
  | inl spent ↦ (
    record t {
      attempt_count = suc t.attempt_count;
      process_start_time = 0;
      circuit_open = true;
      next_restart_time = now + ms interval;
    },
    ground arith,
    ground arith,
  )
  | inr left ↦
      let (b, h) = clamped_backoff-total p.backoff_ms t.attempt_count fits in
      (
        record t {
          attempt_count = suc t.attempt_count;
          process_start_time = 0;
          next_restart_time = now + ms b;
        },
        ground arith,
        ground arith,
      )
]

-- Crashes of one provider at the given times, and what the last of them answered.
unfoldable pub crash_all :
    ProviderSupervisor → Text → Bool → List ℕ → Option (ProviderSupervisor × Bool)
crash_all s id answer [] = some (s, answer)
crash_all s id answer (now ∷ times) = elim (record_crash s id now) [
  | none ↦ none
  | some (s', answer') ↦ crash_all s' id answer' times
]

record_crash_of_Registered :
    (s : ProviderSupervisor) (id : Text) (now : ℕ) (p : RestartPolicyConfig) (t t' : RestartState)
    (retry : Bool)
    → Registered s id p t
    → crash s.probe_interval p t now ≡ some (t', retry)
    → record_crash s id now ≡ some (put_state s id t', retry)
unfolding record_crash
record_crash_of_Registered s id now p t t' retry r e = ground (arith, entry_of_Registered s id r)

crash_all-Streak :
    (s : ProviderSupervisor) (id : Text) (p : RestartPolicyConfig) (t : RestartState) (n : ℕ)
    (times : List ℕ)
    → p.enabled ≡ true
    → 0 < length p.backoff_ms
    → Registered s id p t
    → Streak p n t
    → (s' : ProviderSupervisor) × (t' : RestartState) × (crash_all s id (leb n p.max_attempts) times
        ≡ some (s', leb (n + length times) p.max_attempts))
      × Registered s' id p t'
      × Streak p (n + length times) t'
unfolding crash_all
crash_all-Streak s id p t n [] on fits r k = (s, t, ground arith, r, ground arith)
crash_all-Streak s id p t n (now ∷ times) on fits r k =
    let (t', e, k') = crash-Streak s.probe_interval now n p t on fits k in
    let step = record_crash_of_Registered s id now p t t' (leb (suc n) p.max_attempts) r e in
    let (s'', t'', e'', r'', k'') =
      crash_all-Streak (put_state s id t') id p t' (suc n) times on fits
        (put_state-Registered s id p t t' r) k' in
    (s'', t'', ground arith, r'', ground arith)

-- Under an enabled policy that the loader accepts, from registration on, n crashes in a row with no
-- recovery between them leave an attempt count of n; the last is granted a restart exactly while n stays within max_attempts, and the circuit is
-- open from the crash after that on. No crash reads the schedule out of bounds.
pub crash_budget :
    (s : ProviderSupervisor) (id : Text) (p : RestartPolicyConfig) (times : List ℕ)
    → p.enabled ≡ true
    → policy_is_valid p ≡ true
    → (s' : ProviderSupervisor) × (crash_all (register_provider s id p) id true times
        ≡ some (s', leb (length times) p.max_attempts))
      × (get_attempt_count s' id ≡ length times)
      × (is_circuit_open s' id ≡ ltb p.max_attempts (length times))
unfolding policy_is_valid get_attempt_count is_circuit_open
crash_budget s id p times on ok =
    let (s', t', e, r, k) =
      crash_all-Streak (register_provider s id p) id p fresh_state 0 times on (ground arith)
        (register_provider-Registered s id p) (ground arith) in
    (s', ground arith, ground arith, ground arith)

-- A granted restart waits for exactly the back-off that get_backoff_ms reports: should_restart
-- turns true when that many milliseconds have passed since the crash, and not before.
pub record_crash_waits :
    (s s' : ProviderSupervisor) (id : Text) (now later : ℕ) (p : RestartPolicyConfig)
    (t : RestartState)
    → Registered s id p t
    → t.circuit_open ≡ false
    → record_crash s id now ≡ some (s', true)
    → (b : ℕ) × (get_backoff_ms s' id ≡ some b)
      × (should_restart s' id later ≡ leb (now + ms b) later)
unfolding record_crash crash get_backoff_ms should_restart
record_crash_waits s s' id now later p t r closed e =
    elim (Option-cases (clamped_backoff p.backoff_ms t.attempt_count)) [
      | inl fault ↦ absurd (ground (arith, entry_of_Registered s id r))
      | inr (b, h) ↦
          let t' : RestartState = record t {
            attempt_count = suc t.attempt_count;
            process_start_time = 0;
            next_restart_time = now + ms b;
          } in
          let r' = put_state-Registered s id p t t' r in
          let e' : s' ≡ put_state s id t' = ground (arith, entry_of_Registered s id r) in
          (
            b,
            rw e' (ground (arith, entry_of_Registered s id r, r')),
            rw e' (ground (arith, entry_of_Registered s id r, r')),
          )
    ]

-- The crash that follows a successful probe opens the circuit again, whatever the policy's
-- schedule: the streak was kept. The next probe is due one probe interval later, and no restart is
-- allowed at any time until then.
pub probe_crash_reopens :
    (s : ProviderSupervisor) (id : Text) (probe_time crash_time later : ℕ) (p : RestartPolicyConfig)
    (t : RestartState)
    → Registered s id p t
    → p.enabled ≡ true
    → p.max_attempts < t.attempt_count
    → (s' : ProviderSupervisor) × (is_circuit_open (record_probe_result s id true probe_time) id
        ≡ false)
      × (record_crash (record_probe_result s id true probe_time) id crash_time ≡ some (s', false))
      × (is_circuit_open s' id ≡ true)
      × (should_probe s' id later ≡ leb (crash_time + ms s.probe_interval) later)
      × (should_restart s' id later ≡ false)
unfolding record_probe_result record_crash crash is_circuit_open should_probe should_restart
probe_crash_reopens s id probe_time crash_time later p t r on spent =
    let closed : RestartState = probed_state s.probe_interval t true probe_time in
    let opened : RestartState = record closed {
      attempt_count = suc t.attempt_count;
      process_start_time = 0;
      circuit_open = true;
      next_restart_time = crash_time + ms s.probe_interval;
    } in
    let s₁ = put_state s id closed in
    let r₁ = put_state-Registered s id p t closed r in
    let r₂ = put_state-Registered s₁ id p closed opened r₁ in
    let e₁ : record_probe_result s id true probe_time ≡ s₁ = ground (arith, r) in
    (
      put_state s₁ id opened,
      rw e₁ (ground (arith, r₁)),
      rw e₁ (ground (arith, r₁)),
      ground (arith, r₂),
      ground (arith, r₂),
      ground (arith, r₂),
    )
