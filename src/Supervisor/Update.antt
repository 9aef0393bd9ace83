-- ===== src/Supervisor/Update.antt =====
-- Every call of the supervisor as an update of at most one provider, and what updates keep.
use anolis.Base.{
  ℕ, ◌≡◌, refl, Bool, true, false, some, arith, Text, find, text_key, Option-cases, inl, inr, subst,
  sym, some-injective, Bool-cases,
}
use anolis.Supervisor.{
  RestartPolicyConfig, RestartState, ProviderSupervisor, entry, crash, record_crash,
  record_probe_result, record_success, mark_crash_detected, clear_crash_detected, record_heartbeat,
  Op, registers, crashes, probed, succeeds, marks, clears, beats, apply, put_state, probed_state,
  recovered_state, beat_state,
}
use anolis.Supervisor.Invariant.{
  EntryOk, Inv, Admissible, put_state-Inv, register_provider-Inv, crash-EntryOk,
}

-- What a call for one registered provider can do: nothing, or write that provider's state anew.
pub data Update (s : ProviderSupervisor) (id : Text) (s' : ProviderSupervisor) : Type 0 where
  same : s' ≡ s → Update s id s'
  put :
      (t t' : RestartState)
      → find id s.states ≡ some t
      → s' ≡ put_state s id t'
      → ((p : RestartPolicyConfig) → find id s.policies ≡ some p → EntryOk p t → EntryOk p t')
      → Update s id s'

Update-Inv : {s s' : ProviderSupervisor} {id : Text} → Update s id s' → Inv s → Inv s'
Update-Inv (same e) v = subst Inv (sym e) v
Update-Inv {s} {s'} {id} (put t t' found e step) v =
    subst Inv (sym e) (put_state-Inv s id t' v (λ p hp. step p hp (v id p t hp found)))

record_crash-Update :
    (s s' : ProviderSupervisor) (id : Text) (now : ℕ) (retry : Bool)
    → record_crash s id now ≡ some (s', retry)
    → Update s id s'
unfolding record_crash entry
record_crash-Update s s' id now retry e = elim (Option-cases (find id s.policies)) [
  | inl no_policy ↦ same (ground arith)
  | inr (p, hp) ↦ elim (Option-cases (find id s.states)) [
    | inl no_state ↦ same (ground arith)
    | inr (t, ht) ↦ elim (Option-cases (crash s.probe_interval p t now)) [
      | inl fault ↦ absurd (ground arith)
      | inr ((t', r), hc) ↦
          put t t' ht (ground arith)
            (λ q hq v. crash-EntryOk s.probe_interval now q t t' r v (ground arith))
    ]
  ]
]

record_probe_result-Update :
    (s : ProviderSupervisor) (id : Text) (restarted : Bool) (now : ℕ)
    → Update s id (record_probe_result s id restarted now)
unfolding record_probe_result
record_probe_result-Update s id restarted now = elim (Option-cases (find id s.states)) [
  | inl e ↦ same (ground arith)
  | inr (t, e) ↦
      put t (probed_state s.probe_interval t restarted now) e (ground arith)
        (λ p hp v. ground arith)
]

record_success-Update : (s : ProviderSupervisor) (id : Text) → Update s id (record_success s id)
unfolding record_success
record_success-Update s id = elim (Option-cases (find id s.states)) [
  | inl e ↦ same (ground arith)
  | inr (t, e) ↦ put t (recovered_state t) e (ground arith) (λ p hp v. ground arith)
]

mark_crash_detected-Update :
    (s : ProviderSupervisor) (id : Text) → Update s id (mark_crash_detected s id).0
unfolding mark_crash_detected
mark_crash_detected-Update s id = elim (Option-cases (find id s.states)) [
  | inl e ↦ same (ground arith)
  | inr (t, e) ↦ elim (Bool-cases t.crash_detected) [
    | inl known ↦ same (ground arith)
    | inr new ↦ put t (record t { crash_detected = true }) e (ground arith) (λ p hp v. ground arith)
  ]
]

clear_crash_detected-Update :
    (s : ProviderSupervisor) (id : Text) → Update s id (clear_crash_detected s id)
unfolding clear_crash_detected
clear_crash_detected-Update s id = elim (Option-cases (find id s.states)) [
  | inl e ↦ same (ground arith)
  | inr (t, e) ↦
      put t (record t { crash_detected = false }) e (ground arith) (λ p hp v. ground arith)
]

record_heartbeat-Update :
    (s : ProviderSupervisor) (id : Text) (now : ℕ) → Update s id (record_heartbeat s id now)
unfolding record_heartbeat
record_heartbeat-Update s id now = elim (Option-cases (find id s.states)) [
  | inl e ↦ same (ground arith)
  | inr (t, e) ↦ put t (beat_state t now) e (ground arith) (λ p hp v. ground arith)
]

-- The provider that a call names.
abbrev pub subject : Op → Text
subject (registers id _) = id
subject (crashes id _) = id
subject (probed id _ _) = id
subject (succeeds id) = id
subject (marks id) = id
subject (clears id) = id
subject (beats id _) = id

abbrev registers_policy : Op → Bool
registers_policy (registers _ _) = true
registers_policy _ = false

pub apply-Update :
    (s s' : ProviderSupervisor) (op : Op)
    → registers_policy op ≡ false
    → apply s op ≡ some s'
    → Update s (subject op) s'
unfolding apply
apply-Update s s' (registers id policy) r e = absurd (ground arith)
apply-Update s s' (crashes id now) r e = elim (Option-cases (record_crash s id now)) [
  | inl fault ↦ absurd (ground arith)
  | inr ((s'', retry), h) ↦ record_crash-Update s s' id now retry (ground arith)
]
apply-Update s s' (probed id b now) r e =
    subst (Update s id) (some-injective _ _ e) (record_probe_result-Update s id b now)
apply-Update s s' (succeeds id) r e =
    subst (Update s id) (some-injective _ _ e) (record_success-Update s id)
apply-Update s s' (marks id) r e =
    subst (Update s id) (some-injective _ _ e) (mark_crash_detected-Update s id)
apply-Update s s' (clears id) r e =
    subst (Update s id) (some-injective _ _ e) (clear_crash_detected-Update s id)
apply-Update s s' (beats id now) r e =
    subst (Update s id) (some-injective _ _ e) (record_heartbeat-Update s id now)

-- Every call that the loader's policies allow keeps the invariant.
pub apply-Inv :
    (s s' : ProviderSupervisor) (op : Op) → Admissible op → Inv s → apply s op ≡ some s' → Inv s'
unfolding apply
apply-Inv s s' (registers id policy) ok v e =
    subst Inv (some-injective _ _ e) (register_provider-Inv s id policy ok v)
apply-Inv s s' op ok v e = Update-Inv (apply-Update s s' op refl e) v
