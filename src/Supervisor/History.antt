-- ===== src/Supervisor/History.antt =====
-- Histories of calls: none faults, and a call for one provider leaves the others alone.
use anolis.Base.{
  ℕ, ◌≡◌, refl, ◌≢◌, Option, none, some, arith, Text, find, find-assign, text_key, Option-cases,
  inl, inr, List, All, [], ◌∷◌,
}
use anolis.Supervisor.{
  RestartPolicyConfig, RestartState, ProviderSupervisor, policy_is_valid, entry, register_provider,
  crash, record_crash, Op, registers, crashes, probed, succeeds, marks, clears, beats, apply,
  fresh_state,
}
use anolis.Supervisor.Invariant.{EntryOk, Inv, Admissible, clamped_backoff-total}
use anolis.Supervisor.Update.{Update, same, put, subject, apply-Update, apply-Inv}

Update-entry_other :
    {s s' : ProviderSupervisor} {id : Text} (j : Text)
    → Update s id s'
    → id ≢ j
    → entry s' j ≡ entry s j
unfolding entry
Update-entry_other {s} {s'} {id} j (same e) ne = rw e
Update-entry_other {s} {s'} {id} j (put t t' _ e _) ne =
    rw e (ground (arith, find-assign id j t' s.states, text_key.beq_iff id j))

-- No call touches the policy or the state of a provider that it does not name.
pub apply_isolated :
    (s s' : ProviderSupervisor) (op : Op) (j : Text)
    → apply s op ≡ some s'
    → subject op ≢ j
    → entry s' j ≡ entry s j
unfolding apply register_provider entry
apply_isolated s s' (registers id policy) j e ne = ground (
  arith,
  find-assign id j fresh_state s.states,
  find-assign id j policy s.policies,
  text_key.beq_iff id j,
)
apply_isolated s s' op j e ne = Update-entry_other j (apply-Update s s' op refl e) ne

abbrev pub Admitted : List Op → Type 0
Admitted = All Admissible

-- A history of calls; `none` is a fault on the way.
unfoldable pub apply_all : ProviderSupervisor → List Op → Option ProviderSupervisor
apply_all s [] = some s
apply_all s (op ∷ ops) = elim (apply s op) [ none ↦ none | some s' ↦ apply_all s' ops ]

crash-ne-none :
    (interval now : ℕ) (p : RestartPolicyConfig) (t : RestartState)
    → EntryOk p t
    → crash interval p t now ≢ none
unfolding crash policy_is_valid
crash-ne-none interval now p t v e =
    ground (arith, clamped_backoff-total p.backoff_ms t.attempt_count)

pub record_crash-ne-none :
    (s : ProviderSupervisor) (id : Text) (now : ℕ) → Inv s → record_crash s id now ≢ none
unfolding record_crash entry
record_crash-ne-none s id now v e = elim (Option-cases (find id s.policies)) [
  | inl no_policy ↦ absurd (ground arith)
  | inr (p, hp) ↦ elim (Option-cases (find id s.states)) [
    | inl no_state ↦ absurd (ground arith)
    | inr (t, ht) ↦ ground (arith, crash-ne-none s.probe_interval now p t (v id p t hp ht))
  ]
]

apply-total :
    (s : ProviderSupervisor) (op : Op) → Inv s → (s' : ProviderSupervisor) × (apply s op ≡ some s')
unfolding apply
apply-total s (registers id policy) v = (_, refl)
apply-total s (crashes id now) v = elim (Option-cases (record_crash s id now)) [
  | inl fault ↦ absurd (record_crash-ne-none s id now v fault)
  | inr ((s', retry), h) ↦ (s', ground arith)
]
apply-total s (probed id restarted now) v = (_, refl)
apply-total s (succeeds id) v = (_, refl)
apply-total s (marks id) v = (_, refl)
apply-total s (clears id) v = (_, refl)
apply-total s (beats id now) v = (_, refl)

-- Whatever calls are made with policies that the loader accepts, no back-off schedule is read out
-- of bounds, and the invariant holds at the end.
pub apply_all-total :
    (s : ProviderSupervisor) (ops : List Op)
    → Inv s
    → Admitted ops
    → (s' : ProviderSupervisor) × (apply_all s ops ≡ some s') × Inv s'
unfolding apply_all
apply_all-total s [] v ok = (s, refl, v)
apply_all-total s (op ∷ ops) v ok =
    let (s', e) = apply-total s op v in
    let (s'', e', v') = apply_all-total s' ops (apply-Inv s s' op ok.0 v e) ok.1 in
    (s'', ground arith, v')

-- A supervisor that has registered nothing.
abbrev pub new_supervisor : ℕ → ProviderSupervisor
new_supervisor probe_interval = record {
  probe_interval = probe_interval;
  policies = [];
  states = [];
}

pub new_supervisor-Inv : (probe_interval : ℕ) → Inv (new_supervisor probe_interval)
unfolding find
new_supervisor-Inv probe_interval id p t hp ht = cc
