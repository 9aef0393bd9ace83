-- ===== src/Supervisor/Invariant.antt =====
-- What every call keeps: an enabled policy is one that the loader accepts, its circuit opens only
-- on a spent budget, and a disabled policy counts nothing. Calls for one provider leave the others.
use anolis.Base.{
  ℕ, ◌<◌, ◌≡◌, Bool, true, false, some, arith, length, get_elem?-total, Text, find, find-assign,
  text_key, List,
}
use anolis.Supervisor.{
  RestartPolicyConfig, RestartState, ProviderSupervisor, policy_is_valid, register_provider,
  clamped_backoff, crash, Op, registers, put_state, fresh_state,
}

pub record EntryOk (p : RestartPolicyConfig) (t : RestartState) : Type 0 where
  pub valid : policy_is_valid p ≡ true
  pub open_spent : p.enabled ≡ true → t.circuit_open ≡ true → p.max_attempts < t.attempt_count
  pub disabled_idle : p.enabled ≡ false → t.attempt_count ≡ 0

abbrev pub Inv : ProviderSupervisor → Type 0
Inv s =
    (id : Text) (p : RestartPolicyConfig) (t : RestartState)
    → find id s.policies ≡ some p
    → find id s.states ≡ some t
    → EntryOk p t

-- Registered policies have passed the loader.
abbrev pub Admissible : Op → Type 0
Admissible (registers id policy) = policy_is_valid policy ≡ true
Admissible _ = Unit {0}

-- A state written for `id` is the only change.
pub put_state-Inv :
    (s : ProviderSupervisor) (id : Text) (t : RestartState)
    → Inv s
    → ((p : RestartPolicyConfig) → find id s.policies ≡ some p → EntryOk p t)
    → Inv (put_state s id t)
put_state-Inv s id t v new j p u hp hu =
    ground (arith, find-assign id j t s.states, text_key.beq_iff id j, new p, v j p u)

-- A state that replaces one which was fine.
update-Inv :
    (s : ProviderSupervisor) (id : Text) (t t' : RestartState)
    → Inv s
    → find id s.states ≡ some t
    → ((p : RestartPolicyConfig) → EntryOk p t → EntryOk p t')
    → Inv (put_state s id t')
update-Inv s id t t' v e step = put_state-Inv s id t' v (λ p hp. step p (v id p t hp e))

pub register_provider-Inv :
    (s : ProviderSupervisor) (id : Text) (policy : RestartPolicyConfig)
    → policy_is_valid policy ≡ true
    → Inv s
    → Inv (register_provider s id policy)
unfolding register_provider
register_provider-Inv s id policy ok v j p u hp hu = ground (
  arith,
  find-assign id j fresh_state s.states,
  find-assign id j policy s.policies,
  text_key.beq_iff id j,
  v j p u,
)

-- The index that record_crash reads stands inside the schedule, unless that is empty.
pub clamped_backoff-total :
    (backoff : List ℕ) (index : ℕ)
    → 0 < length backoff
    → (b : ℕ) × (clamped_backoff backoff index ≡ some b)
unfolding clamped_backoff
clamped_backoff-total backoff index h = get_elem?-total backoff _ (ground arith)

pub crash-EntryOk :
    (interval now : ℕ) (p : RestartPolicyConfig) (t t' : RestartState) (retry : Bool)
    → EntryOk p t
    → crash interval p t now ≡ some (t', retry)
    → EntryOk p t'
unfolding crash
crash-EntryOk interval now p t t' retry v e = ground arith
