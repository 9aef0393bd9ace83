-- ===== src/Tests/Observing.antt =====
-- The observed emergency stop at work: it is released, and then the software stop is cleared.
use anolis.Base.{
  ◌≡◌, refl, true, false, some, none, List, [], ◌∷◌, codes, pos, text_key, find, contains,
}
use anolis.Protocol.{type_bool, bool_value, signal_ok}
use anolis.StateCache.{CachedSignalValue, DeviceState, StateCache, is_stale, age}
use anolis.StateCache.Publish.{get_signal_value}
use anolis.SafeState.Controller.{SafeStateController, new_controller, clear, hold}
use anolis.StopChain.{
  StopChainStatus, StopChainConfig, new_monitor, around_slash, split_last, judge, classify, update,
  clear_refusal, guard_of, holds,
}
use anolis.StopChain.Released.{Released, clear_needs_release}
use anolis.StopChain.Held.{
  Watched, WatchOp, observes, hold_made, clear_asked, clear_done, watching, observe, watch_step,
  watch_steps, stop_is_held,
}
use anolis.Tests.Rig.{whole_doubles}

abbrev stop_signal : StopChainStatus
stop_signal = record { status_signal = codes "io/e/stop"; active = true }

abbrev chain : StopChainConfig
chain = record { status = some stop_signal; scope = []; expectations = [] }

abbrev off : CachedSignalValue whole_doubles
off = record {
  cached_value = record { value_type = type_bool; kind = bool_value false };
  cached_at = pos 7;
  cached_quality = signal_ok;
}

abbrev panel : DeviceState whole_doubles
panel = record {
  state_handle = codes "io/e";
  signals = (codes "stop", off) ∷ [];
  last_poll_time = pos 7;
  provider_available = true;
  loss_reported = false;
  unavailable_emitted = false;
}

abbrev panel_cache : StateCache whole_doubles
panel_cache = record {
  has_emitter = false;
  has_sink = false;
  initialized = true;
  poll_configs = [];
  device_states = (codes "io/e", panel) ∷ [];
  reachability_edge_seq = 0;
  departed = [];
  outages = [];
}

abbrev engaged : SafeStateController
engaged = (hold {D = whole_doubles} new_controller (codes "stop") (pos 1)).0

engaged_latched : engaged.latched ≡ true
unfolding hold
engaged_latched = refl

chain_cleared :
    (clear {D = whole_doubles} engaged (
      some (
        guard_of
          (λ _. codes "held")
          (update chain panel_cache 100 (pos 8) (pos 8) new_monitor).0))).0.latched
    ≡ false
unfolding clear hold update classify judge split_last around_slash get_signal_value find is_stale
    age clear_refusal contains
chain_cleared = refl

clear_needs_release_example : Released true 100 (pos 8) (
    get_signal_value panel_cache
      (split_last (codes "io/e/stop")).0
      (split_last (codes "io/e/stop")).1)
clear_needs_release_example =
    clear_needs_release chain stop_signal panel_cache 100 (pos 8) (pos 8) new_monitor
      (λ _. codes "held") engaged refl engaged_latched chain_cleared

abbrev pressed : StateCache whole_doubles
pressed = record panel_cache {
  device_states =
      (
        codes "io/e",
        record panel {
          signals =
              (
                codes "stop",
                record off {
                  cached_value = record { value_type = type_bool; kind = bool_value true };
                },
              )
              ∷ [];
        },
      )
      ∷ [];
}

abbrev watched : List (WatchOp whole_doubles)
watched =
    observes pressed (pos 8) (pos 8)
    ∷ hold_made (pos 9)
    ∷ clear_asked
    ∷ observes pressed (pos 900000000) (pos 900)
    ∷ clear_done
    ∷ hold_made (pos 901)
    ∷ []

abbrev after_watch : Watched
after_watch = watch_steps chain 100 (λ _. codes "read") watching watched

still_holds : holds after_watch.monitor ≡ true
unfolding watch_steps watch_step observe holds contains
still_holds = refl

nothing_owed : after_watch.owed ≡ none
unfolding watch_steps watch_step observe holds contains
nothing_owed = refl

stop_is_held_example : (after_watch.stop.latched ≡ true) × (after_watch.is_clearing ≡ false)
stop_is_held_example = stop_is_held chain 100 (λ _. codes "read") watched still_holds nothing_owed
