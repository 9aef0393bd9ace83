-- ===== src/Supervisor/Outage.antt =====
-- What the health loop makes of an outage: one crash counted however often it sees the provider
-- down, one restart at a time, and no restart that the supervisor does not allow.
use anolis.Base.{
  text_key, ℕ, ◌≡◌, ◌≤◌, ap, subst, ◌∙◌, true, false, some, arith, Text, List, [], ◌∷◌, find, inl,
  inr, Bool-cases, Option-cases, ◌⊎◌,
}
use anolis.Supervisor.{
  RestartPolicyConfig, entry, RestartState, ProviderSupervisor, is_circuit_open, should_probe,
  mark_crash_detected, record_crash, should_restart, clear_crash_detected,
}
use anolis.Supervisor.Loop.{Loop, Sighting, start_restart, try_restart, visit_down, visit_up, visit}

-- Sightings of one provider, all down.
abbrev pub AllDown : List (Text × Sighting) → Text → Type 0
AllDown [] id = Unit {0}
AllDown ((j, seen) ∷ rest) id = (j ≡ id) × (seen.available ≡ false) × AllDown rest id

try_restart_starts :
    (l l' : Loop) (id : Text) (now : ℕ)
    → try_restart l id now ≡ l'
    → l.in_flight ≡ false
    → l'.in_flight ≡ true
    → (l'.restart_is_probe ≡ false)
      × (l'.restarting_id ≡ id)
      × (should_restart l.supervisor id now ≡ true)
      × (l'.supervisor ≡ clear_crash_detected l.supervisor id)
unfolding try_restart
try_restart_starts l l' id now e idle busy = ground arith

-- At this reading of the clock the provider's policy is enabled, its circuit is closed and its back-off
-- has run out.
abbrev pub WindowOpen : ProviderSupervisor → Text → ℕ → Type 0
WindowOpen s id now =
    (policy : RestartPolicyConfig) × (state : RestartState) × (find id s.policies ≡ some policy)
    × (find id s.states ≡ some state)
    × (policy.enabled ≡ true)
    × (state.circuit_open ≡ false)
    × (state.next_restart_time ≤ now)

should_restart-WindowOpen :
    (s : ProviderSupervisor) (id : Text) (now : ℕ)
    → should_restart s id now ≡ true
    → WindowOpen s id now
unfolding should_restart entry
should_restart-WindowOpen s id now h = elim (Option-cases (find id s.policies)) [
  | inl no_policy ↦ absurd (ground (arith, h, no_policy))
  | inr (policy, is_policy) ↦ elim (Option-cases (find id s.states)) [
    | inl no_state ↦ absurd (ground (arith, h, is_policy, no_state))
    | inr (state, is_state) ↦ (
      policy,
      state,
      is_policy,
      is_state,
      ground (arith, h, is_policy, is_state),
      ground (arith, h, is_policy, is_state),
      ground (arith, h, is_policy, is_state),
    )
  ]
]

-- The crash is known already, and its back-off is over at the first reading; or this visit is the first
-- to see it and counts it, the budget grants a restart, and the back-off is over at the second reading.
abbrev pub RestartAllowed : Loop → Loop → Text → Sighting → Type 0
RestartAllowed l l' id seen =
    ((mark_crash_detected l.supervisor id ≡ (l.supervisor, false))
      × WindowOpen l.supervisor id seen.first
      × (l'.supervisor ≡ clear_crash_detected l.supervisor id))
    ⊎ ((s : ProviderSupervisor) × ((mark_crash_detected l.supervisor id).1 ≡ true)
        × (record_crash (mark_crash_detected l.supervisor id).0 id seen.first ≡ some (s, true))
        × WindowOpen s id seen.second
        × (l'.supervisor ≡ clear_crash_detected s id))

old_mark :
    (s : ProviderSupervisor) (id : Text)
    → (mark_crash_detected s id).1 ≡ false
    → mark_crash_detected s id ≡ (s, false)
unfolding mark_crash_detected
old_mark s id h = ground (arith, h)

-- Why a visit may have started the restart that is now in flight.
abbrev pub StartedBy : Loop → Loop → Text → Sighting → Type 0
StartedBy l l' id seen =
    ((l'.restart_is_probe ≡ true)
      × (is_circuit_open l.supervisor id ≡ true)
      × (should_probe l.supervisor id seen.first ≡ true))
    ⊎ ((l'.restart_is_probe ≡ false)
        × (is_circuit_open l.supervisor id ≡ false)
        × RestartAllowed l l' id seen)

visit_down_starts :
    (l l' : Loop) (id : Text) (seen : Sighting)
    → visit_down l id seen ≡ some l'
    → l.in_flight ≡ false
    → l'.in_flight ≡ true
    → (l'.restarting_id ≡ id) × StartedBy l l' id seen
unfolding visit_down
visit_down_starts l l' id seen e idle busy = elim (Bool-cases (is_circuit_open l.supervisor id)) [
  | inl opened ↦ ground arith
  | inr closed ↦
      let marked = mark_crash_detected l.supervisor id in
      elim (Bool-cases marked.1) [
        | inl new ↦ elim (Option-cases (record_crash marked.0 id seen.first)) [
          | inl fault ↦ absurd (ground arith)
          | inr ((s, retry), h) ↦ elim (Bool-cases retry) [
            | inl granted ↦
                let (probe, who, allowed, cleared) =
                  try_restart_starts (record l { supervisor = s }) l' id seen.second (ground arith)
                    idle busy in
                (
                  who,
                  inr (
                    probe,
                    closed,
                    inr (
                      s,
                      new,
                      ground (arith, h, granted),
                      should_restart-WindowOpen s id seen.second allowed,
                      cleared,
                    ),
                  ),
                )
            | inr refused ↦ absurd (ground arith)
          ]
        ]
        | inr old ↦
            let (probe, who, allowed, cleared) =
              try_restart_starts (record l { supervisor = marked.0 }) l' id seen.first
                (ground arith) idle busy in
            let same : marked.0 ≡ l.supervisor = ap (λ p. p.0) (old_mark l.supervisor id old) in
            (
              who,
              inr (
                probe,
                closed,
                inl (
                  old_mark l.supervisor id old,
                  subst (λ s. WindowOpen s id seen.first) same
                      (should_restart-WindowOpen marked.0 id seen.first allowed),
                  cleared ∙ ap (λ s. clear_crash_detected s id) same,
                ),
              ),
            )
      ]
]

-- When a visit turns an idle loop into one with a restart in flight, the restart is that of the
-- visited provider, which is down. Either it is a probe, the circuit was open and should_probe held
-- at the first reading of the clock; or it is none and the circuit was closed, and either the crash was
-- known and its back-off had run out at the first reading, or the visit counted it at the first reading,
-- the budget granted a restart and the back-off had run out at the second; the crash mark is cleared.
pub visit_starts_allowed :
    (l l' : Loop) (id : Text) (seen : Sighting)
    → visit l id seen ≡ some l'
    → l.in_flight ≡ false
    → l'.in_flight ≡ true
    → (seen.available ≡ false) × (l'.restarting_id ≡ id) × StartedBy l l' id seen
unfolding visit visit_up
visit_starts_allowed l l' id seen e idle busy = elim (Bool-cases seen.available) [
  | inl up ↦ absurd (ground arith)
  | inr down ↦
      let (who, why) = visit_down_starts l l' id seen (ground arith) idle busy in (down, who, why)
]

-- One restart at a time: while one is in flight no visit starts, replaces or ends it.
pub visit_keeps_restart :
    (l l' : Loop) (id : Text) (seen : Sighting)
    → visit l id seen ≡ some l'
    → l.in_flight ≡ true
    → (l'.in_flight ≡ true)
      × (l'.restarting_id ≡ l.restarting_id)
      × (l'.restart_is_probe ≡ l.restart_is_probe)
unfolding visit
visit_keeps_restart l l' id seen e busy = ground arith

-- The loop with a restart of the provider in flight, its crash mark cleared.
abbrev pub started : Loop → Text → Loop
unfolding start_restart
started l id =
    start_restart (record l { supervisor = clear_crash_detected l.supervisor id }) id false
