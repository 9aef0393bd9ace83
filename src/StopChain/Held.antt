-- ===== src/StopChain/Held.antt =====
-- Runtime::update_stop_chain and the controller of the software stop in two threads: the loop observes
-- and then holds, and a clear reads its guard and clears under the mutex that a hold and a trigger take.
-- A step that has to wait, or is not its thread's turn, leaves the system as it is.
use anolis.Base.{
  ℕ, ◌≡◌, Bool, true, false, ◌&&◌, ◌||◌, not, Option, none, some, List, [], ◌∷◌, ◌++◌,
  if◌then◌else◌, Text, codes, ℤ, arith,
}
use anolis.Protocol.{Doubles}
use anolis.StateCache.{StateCache}
use anolis.SafeState.Controller.{SafeStateController, Plant, new_controller}
use anolis.SafeState.Controller
use anolis.StopChain.{
  Reading, StopChainConfig, StopChainMonitor, stop_chain_state_to_string, new_monitor, holds,
  clear_refusal, guard_of, update,
}

-- `owed` is the hold that an observation has still to make, `is_clearing` a clear that passed its guard.
pub record Watched : Type 0 where
  pub monitor : StopChainMonitor
  pub stop : SafeStateController
  pub owed : Option Text
  pub is_clearing : Bool

pub data WatchOp (D : Doubles) : Type 0 where
  observes : StateCache D → ℤ → ℤ → WatchOp D
  hold_made : ℤ → WatchOp D
  clear_asked clear_done : WatchOp D
  triggered : Text → ℤ → Plant D → Bool → WatchOp D

abbrev pub watching : Watched
watching = record { monitor = new_monitor; stop = new_controller; owed = none; is_clearing = false }

-- The hold that an observation asks for.
abbrev reason_of : (Reading → Text) → StopChainMonitor → Text
reason_of text m =
    codes "emergency stop "
    ++ (stop_chain_state_to_string m.current.state ++ (codes ": " ++ text m.current.reading))

-- The hold is made, with no clear on its way, or owed.
abbrev pub is_held : Watched → Bool
is_held w =
    elim w.owed as (λ _. Bool) [ none ↦ false | some _ ↦ true ]
    || (w.stop.latched && not w.is_clearing)

watching-is_held : holds watching.monitor ≡ true → is_held watching ≡ true
unfolding holds
watching-is_held e = ground (arith, e)

module _ {D : Doubles} (config : StopChainConfig) (stale_after : ℕ) (text : Reading → Text) where
  unfoldable pub observe : StateCache D → ℤ → ℤ → Watched → Watched
  unfolding update holds
  observe cache now now_ms w =
      let (after, change) = update config cache stale_after now now_ms w.monitor in
      record w {
        monitor = after;
        owed = elim change [
          | none ↦ none
          | some _ ↦ if holds after then some (reason_of text after) else none
        ];
      }

  unfoldable pub watch_step : Watched → WatchOp D → Watched
  unfolding observe clear_refusal Controller.hold Controller.clear Controller.trigger
  watch_step w (observes cache now now_ms) = elim w.owed [
    | none ↦ observe cache now now_ms w
    | some _ ↦ w
  ]
  watch_step w (hold_made now) = elim w.owed [
    | none ↦ w
    | some reason ↦
        if w.is_clearing
        then w
        else record w { stop = (Controller.hold {D = D} w.stop reason now).0; owed = none }
  ]
  watch_step w clear_asked = elim (guard_of text w.monitor) [
    | none ↦ record w { is_clearing = true }
    | some _ ↦ w
  ]
  watch_step w clear_done =
      if w.is_clearing
      then record w { stop = (Controller.clear {D = D} w.stop none).0; is_clearing = false }
      else w
  watch_step w (triggered reason now plant fault_ok) =
      if w.is_clearing
      then w
      else record w { stop = (Controller.trigger w.stop reason now plant fault_ok).0 }

  unfoldable pub watch_steps : Watched → List (WatchOp D) → Watched
  unfolding watch_step
  watch_steps w [] = w
  watch_steps w (op ∷ ops) = watch_steps (watch_step w op) ops

  observe-change :
      (cache : StateCache D) (now now_ms : ℤ) (w : Watched)
      → w.owed ≡ none
      → (holds w.monitor ≡ true → is_held w ≡ true)
      → holds (observe cache now now_ms w).monitor ≡ true
      → is_held (observe cache now now_ms w) ≡ true
  unfolding observe update holds
  observe-change cache now now_ms w free kept h = ground (arith, kept, h, free)

  watch_step-is_held :
      (w : Watched) (op : WatchOp D)
      → (holds w.monitor ≡ true → is_held w ≡ true)
      → holds (watch_step w op).monitor ≡ true
      → is_held (watch_step w op) ≡ true
  unfolding watch_step
  watch_step-is_held w (observes cache now now_ms) kept h = ground (arith, kept, h)
  watch_step-is_held w (hold_made now) kept h = ground (arith, kept, h)
  watch_step-is_held w clear_asked kept h = ground (arith, kept, h)
  watch_step-is_held w clear_done kept h = ground (arith, kept, h)
  watch_step-is_held w (triggered reason now plant fault_ok) kept h = ground (arith, kept, h)

  watch_steps-is_held :
      (w : Watched) (ops : List (WatchOp D))
      → (holds w.monitor ≡ true → is_held w ≡ true)
      → holds (watch_steps w ops).monitor ≡ true
      → is_held (watch_steps w ops) ≡ true
  unfolding watch_steps
  watch_steps-is_held w [] kept h = kept h
  watch_steps-is_held w (op ∷ ops) kept h =
      watch_steps-is_held (watch_step w op) ops (watch_step-is_held w op kept) h

  -- In every history of observations, holds, clears and triggers from the start, where the stop chain is
  -- in force or unknown and no hold is owed, the software stop is latched and no clear is on its way.
  pub stop_is_held :
      (ops : List (WatchOp D))
      → holds (watch_steps watching ops).monitor ≡ true
      → (watch_steps watching ops).owed ≡ none
      → ((watch_steps watching ops).stop.latched ≡ true)
        × ((watch_steps watching ops).is_clearing ≡ false)
  stop_is_held ops h free = (ground (arith, held, free), ground (arith, held, free))
    where
      held : is_held (watch_steps watching ops) ≡ true
      held = watch_steps-is_held watching ops watching-is_held h
