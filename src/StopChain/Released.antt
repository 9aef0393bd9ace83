-- ===== src/StopChain/Released.antt =====
-- What it takes to clear a software stop while the emergency stop is observed.
use anolis.Base.{
  ℕ, ◌≡◌, refl, sym, ap, ◌∙◌, Bool, true, false, not, ◌&&◌, ◌||◌, Option, none, some, arith, Text,
  ℤ, Option-cases, inl, inr, ◌⊎◌,
}
use anolis.Protocol.{Doubles}
use anolis.StateCache.{CachedSignalValue, StateCache, is_stale}
use anolis.StateCache.Publish.{get_signal_value}
use anolis.SafeState.Controller.{SafeStateController}
use anolis.SafeState.Controller
use anolis.StopChain.{
  StopChainState, not_configured, in_force, clear, unknown, StopChainStatus, StopChainConfig,
  Reading, StopChainSnapshot, StopChainMonitor, split_last, configured, state_eq, clear_refusal,
  guard_of, is_ok, bool_of, judge, classify, update,
}

state_eq_sound : (a b : StopChainState) → state_eq a b ≡ true → a ≡ b
state_eq_sound not_configured not_configured e = refl
state_eq_sound not_configured in_force e = absurd (ground (arith, e))
state_eq_sound not_configured clear e = absurd (ground (arith, e))
state_eq_sound not_configured unknown e = absurd (ground (arith, e))
state_eq_sound in_force not_configured e = absurd (ground (arith, e))
state_eq_sound in_force in_force e = refl
state_eq_sound in_force clear e = absurd (ground (arith, e))
state_eq_sound in_force unknown e = absurd (ground (arith, e))
state_eq_sound clear not_configured e = absurd (ground (arith, e))
state_eq_sound clear in_force e = absurd (ground (arith, e))
state_eq_sound clear clear e = refl
state_eq_sound clear unknown e = absurd (ground (arith, e))
state_eq_sound unknown not_configured e = absurd (ground (arith, e))
state_eq_sound unknown in_force e = absurd (ground (arith, e))
state_eq_sound unknown clear e = absurd (ground (arith, e))
state_eq_sound unknown unknown e = refl

-- What a guard that lets a clear pass says of the observed stop.
guard_of-none :
    (text : Reading → Text) (m : StopChainMonitor)
    → guard_of text m ≡ none
    → (m.current.state ≡ not_configured) ⊎ (m.current.state ≡ clear)
unfolding clear_refusal
guard_of-none text m e = by_state m.current.state refl
  where
    by_state :
        (st : StopChainState)
        → m.current.state ≡ st
        → (m.current.state ≡ not_configured) ⊎ (m.current.state ≡ clear)
    by_state not_configured h = inl h
    by_state clear h = inr h
    by_state in_force h = absurd (ground (arith, e, h))
    by_state unknown h = absurd (ground (arith, e, h))

clear-latched :
    (D : Doubles) (c : SafeStateController) (guard : Option Text)
    → c.latched ≡ true
    → (Controller.clear {D = D} c (some guard)).0.latched ≡ false
    → guard ≡ none
unfolding Controller.clear
clear-latched D c none l e = refl
clear-latched D c (some t) l e = absurd (ground (arith, l, e))

module _ {D : Doubles} where
  -- The reading is there, fresh, asserted as OK and a bool, and it is not the value of a stop in force.
  pub record Released (active : Bool) (stale_after : ℕ) (now : ℤ)
      (found : Option (CachedSignalValue D)) : Type 0 where
    pub value : CachedSignalValue D
    pub is_found : found ≡ some value
    pub is_fresh : is_stale value stale_after now ≡ false
    pub is_good : is_ok value ≡ true
    pub is_off : bool_of value.cached_value.kind ≡ some (not active)

  judge-Released :
      (active : Bool) (stale_after : ℕ) (now : ℤ) (found : Option (CachedSignalValue D))
      → (judge active stale_after now found).0 ≡ clear
      → Released active stale_after now found
  unfolding judge
  judge-Released active stale_after now none e = absurd (ground (arith, e))
  judge-Released active stale_after now (some v) e =
      elim (Option-cases (bool_of v.cached_value.kind)) [
        | inl none_set ↦ absurd (ground (arith, e, none_set))
        | inr (b, is_bool) ↦ record {
          value = v;
          is_found = refl;
          is_fresh = ground (arith, e);
          is_good = ground (arith, e);
          is_off = is_bool ∙ ap some (other_value b (ground (arith, e, is_bool)));
        }
      ]
    where
      other_value : (b : Bool) → ((b && active) || (not b && not active)) ≡ false → b ≡ not active
      other_value b h = ground (arith, h)

  update-state :
      (config : StopChainConfig) (cache : StateCache D) (stale_after : ℕ) (now now_ms : ℤ)
      (m : StopChainMonitor)
      → configured config ≡ true
      → (update config cache stale_after now now_ms m).0.current.state
        ≡ (classify config cache stale_after now).0
  unfolding update
  update-state config cache stale_after now now_ms m c =
      ground (arith, c, state_eq_sound (classify config cache stale_after now).0 m.current.state)

  classify-status :
      (config : StopChainConfig) (s : StopChainStatus) (cache : StateCache D) (stale_after : ℕ)
      (now : ℤ)
      → config.status ≡ some s
      → classify config cache stale_after now
        ≡ judge s.active stale_after now
            (get_signal_value cache (split_last s.status_signal).0 (split_last s.status_signal).1)
  unfolding classify
  classify-status config s cache stale_after now e = ground (arith, e)

  judge-configured :
      (active : Bool) (stale_after : ℕ) (now : ℤ) (found : Option (CachedSignalValue D))
      → (judge active stale_after now found).0 ≡ not_configured
      → ⊥
  unfolding judge
  judge-configured active stale_after now none e = ground (arith, e)
  judge-configured active stale_after now (some v) e =
      elim (Option-cases (bool_of v.cached_value.kind)) [
        | inl none_set ↦ ground (arith, e, none_set)
        | inr (b, is_bool) ↦ ground (arith, e, is_bool)
      ]

  -- The software stop clears, after an update of a configured stop chain, only where the reading of the
  -- status signal is released.
  pub clear_needs_release :
      (config : StopChainConfig) (s : StopChainStatus) (cache : StateCache D) (stale_after : ℕ)
      (now now_ms : ℤ) (m : StopChainMonitor) (text : Reading → Text) (c : SafeStateController)
      → config.status ≡ some s
      → c.latched ≡ true
      → (Controller.clear {D = D} c
          (some (guard_of text (update config cache stale_after now now_ms m).0))).0.latched
        ≡ false
      → Released s.active stale_after now
          (get_signal_value cache (split_last s.status_signal).0 (split_last s.status_signal).1)
  clear_needs_release config s cache stale_after now now_ms m text c e l cleared =
      elim (guard_of-none text after.0 (clear-latched D c (guard_of text after.0) l cleared)) [
        | inl h ↦ absurd (judge-configured s.active stale_after now found (judged ∙ h))
        | inr h ↦ judge-Released s.active stale_after now found (judged ∙ h)
      ]
    where
      after : StopChainMonitor × Option (StopChainSnapshot × StopChainSnapshot)
      after = update config cache stale_after now now_ms m

      found : Option (CachedSignalValue D)
      found = get_signal_value cache (split_last s.status_signal).0 (split_last s.status_signal).1

      is_set : configured config ≡ true
      is_set = ground (arith, e)

      judged : (judge s.active stale_after now found).0 ≡ after.0.current.state
      judged =
          sym (ap (λ p. p.0) (classify-status config s cache stale_after now e))
          ∙ sym (update-state config cache stale_after now now_ms m is_set)
