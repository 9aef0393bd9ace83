-- ===== src/Supervisor/Loop.antt =====
-- The provider health part of the main loop, Runtime::run in core/runtime/runtime.cpp: collecting a
-- finished restart, then visiting each provider in turn. The restart itself runs on a worker
-- thread: `in_flight` is the validity of its future. What the loop sees of a provider at a visit,
-- the readings of the clock included, is its `Sighting`.
use anolis.Base.{
  ℕ, Bool, true, false, not, ◌&&◌, Option, none, some, Text, text_eq, List, [], ◌∷◌, if◌then◌else◌,
}
use anolis.Supervisor.{
  ProviderSupervisor, is_circuit_open, should_probe, mark_crash_detected, record_crash,
  should_restart, clear_crash_detected, record_heartbeat, should_mark_recovered, record_success,
  record_probe_result,
}

pub record Loop : Type 0 where
  pub supervisor : ProviderSupervisor
  pub in_flight : Bool
  pub restarting_id : Text
  pub restart_is_probe : Bool

-- `first` and `second` are the first and the second reading of the clock in the visit.
pub record Sighting : Type 0 where
  pub registered : Bool
  pub available : Bool
  pub first : ℕ
  pub second : ℕ

unfoldable pub start_restart : Loop → Text → Bool → Loop
start_restart l id probe = record l {
  in_flight = true;
  restarting_id = id;
  restart_is_probe = probe;
}

-- The result of the restart, if it is ready.
unfoldable pub collect : Loop → Option Bool → ℕ → Loop
collect l ready now = elim ready [
  | none ↦ l
  | some restarted ↦
      if l.in_flight
      then record l {
        supervisor =
            if l.restart_is_probe
            then record_probe_result l.supervisor l.restarting_id restarted now
            else l.supervisor;
        in_flight = false;
        restarting_id = [];
      }
      else l
]

unfoldable pub try_restart : Loop → Text → ℕ → Loop
unfolding start_restart
try_restart l id now =
    if not l.in_flight && should_restart l.supervisor id now
    then start_restart (record l { supervisor = clear_crash_detected l.supervisor id }) id false
    else l

unfoldable pub try_probe : Loop → Text → ℕ → Loop
unfolding start_restart
try_probe l id now =
    if not l.in_flight && should_probe l.supervisor id now then start_restart l id true else l

-- A provider that is not available; `none` is the fault of record_crash.
unfoldable pub visit_down : Loop → Text → Sighting → Option Loop
unfolding try_restart try_probe
visit_down l id seen =
    if is_circuit_open l.supervisor id
    then some (try_probe l id seen.first)
    else let (marked, new_crash) = mark_crash_detected l.supervisor id in
      let unchanged : Loop = record l { supervisor = marked } in
      if new_crash
      then elim (record_crash marked id seen.first) [
        | none ↦ none
        | some (crashed, retry) ↦
            let counted : Loop = record l { supervisor = crashed } in
            some (if retry then try_restart counted id seen.second else counted)
      ]
      else some (try_restart unchanged id seen.first)

unfoldable pub visit_up : Loop → Text → Sighting → Loop
visit_up l id seen =
    let beaten = record_heartbeat l.supervisor id seen.first in
    record l {
      supervisor =
          if should_mark_recovered beaten id seen.second then record_success beaten id else beaten;
    }

unfoldable pub visit : Loop → Text → Sighting → Option Loop
unfolding visit_down visit_up
visit l id seen =
    if not seen.registered
    then some l
    else if text_eq id l.restarting_id
    then some l
    else if not seen.available
    then visit_down l id seen
    else some (visit_up l id seen)

-- One pass over the providers of the configuration.
unfoldable pub visit_all : Loop → List (Text × Sighting) → Option Loop
visit_all l [] = some l
visit_all l ((id, seen) ∷ rest) = elim (visit l id seen) [
  | none ↦ none
  | some l' ↦ visit_all l' rest
]
