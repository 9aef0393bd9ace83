-- ===== src/Tests/Caching.antt =====
-- The state cache at work: a device that is lost, comes back and is rebuilt, with its edges delivered
-- to the latch in the other order.
use mathlib.Core.List.{Perm}
use mathlib.Core.List.Perm
use anolis.Base.{
  ◌≡◌, refl, subst, sym, true, false, some, List, [], ◌∷◌, Text, codes, text_key, arith, ◌<◌, ◌^◌,
  length, pos, find, assign, erase, All, contains, insert_sorted, starts_with,
}
use anolis.Protocol.{code_unavailable, code_ok, type_double}
use anolis.Registry.{RegisteredDevice, SignalSpec}
use anolis.LossLatch.{
  Edge, is_latched, deliver, new_latch, apply_reachability_edge, transport_failure, last_of,
}
use anolis.LossLatch.Reassert.{asked_since_loss}
use anolis.StateCache.{StateCache, update_signals}
use anolis.StateCache.Polling.{read_failed, read_ok, poll_device, fail_read, update_device_state}
use anolis.StateCache.Rebuild.{
  initialize, initial_configs, initial_states, default_signals, rebuild_poll_configs, carried_of,
  forget_provider, kept_states, add_devices, add_device, report_removed, is_of_provider,
}
use anolis.StateCache.Edges.{watch, watch_of, lost_in}
use anolis.StateCache.Carry.{is_distinct, handles_of}
use anolis.StateCache.History.{
  Op, read, rebuilt, perform, perform_all, started, new_watch, edges_in_turn, HasDistinctHandles,
}
use anolis.StateCache.Latching.{edges_of, history_is_reasserted}
use anolis.StateCache.Told.{told, marked_in, sections_tell}
use anolis.Tests.Rig.{whole_doubles}

abbrev speed : SignalSpec whole_doubles
speed = record {
  signal_id = codes "speed";
  signal_label = codes "Speed";
  unit = codes "rpm";
  description = [];
  signal_type = type_double;
  readable = true;
  writable = false;
  is_default = true;
  stale_after_ms = 1000;
  poll_hint_hz = pos 1;
}

abbrev fan : RegisteredDevice whole_doubles
fan = record {
  provider_id = codes "sim0";
  device_id = codes "fan";
  signals_by_id = (codes "speed", speed) ∷ [];
  functions_by_id = [];
}

abbrev fan_handle : Text
fan_handle = codes "sim0/fan"

abbrev lost_and_back : List (Op whole_doubles)
lost_and_back =
    read (codes "sim0") (codes "fan") (read_failed code_unavailable false false)
    ∷ read (codes "sim0") (codes "fan") (read_ok (pos 5) [])
    ∷ []

abbrev history : List (Op whole_doubles)
history =
    read (codes "sim0") (codes "fan") (read_failed code_unavailable false false)
    ∷ rebuilt (codes "sim0") (fan ∷ []) (pos 3)
    ∷ read (codes "sim0") (codes "fan") (read_ok (pos 5) [])
    ∷ []

abbrev fresh_cache : StateCache whole_doubles
fresh_cache = started true true (fan ∷ []) (pos 0)

abbrev fan_lost : Edge
fan_lost = record {
  device_handle = fan_handle;
  is_return = false;
  last_status = code_unavailable;
  edge_seq = 1;
}

abbrev fan_back : Edge
fan_back = record {
  device_handle = fan_handle;
  is_return = true;
  last_status = code_ok;
  edge_seq = 2;
}

history_distinct : All HasDistinctHandles history
unfolding is_distinct handles_of contains
history_distinct = (tt, (refl, (tt, tt)))

history_edges : edges_of (perform_all fresh_cache history).1 ≡ fan_lost ∷ fan_back ∷ []
unfolding perform_all perform poll_device fail_read update_device_state update_signals started
    initialize initial_configs initial_states default_signals rebuild_poll_configs carried_of
    forget_provider kept_states add_devices add_device report_removed is_of_provider find assign
    erase starts_with
history_edges = refl

history_back : (watch_of (perform_all fresh_cache history).0 fan_handle).is_lost ≡ false
unfolding perform_all perform poll_device fail_read update_device_state update_signals started
    initialize initial_configs initial_states default_signals rebuild_poll_configs carried_of
    forget_provider kept_states add_devices add_device report_removed is_of_provider find assign
    erase starts_with lost_in
history_back = refl

edges_in_turn_example :
    watch fan_handle new_watch (perform_all fresh_cache history).1
    ≡ some (watch_of (perform_all fresh_cache history).0 fan_handle)
edges_in_turn_example = edges_in_turn fan_handle true (fan ∷ []) (pos 0) history history_distinct

history_small : length (edges_of (perform_all fresh_cache history).1) < 2 ^ 64
history_small = subst (λ es. length es < 2 ^ 64) (sym history_edges) (omega arith)

history_swapped : Perm (edges_of (perform_all fresh_cache history).1) (fan_back ∷ fan_lost ∷ [])
history_swapped =
    subst (λ es. Perm es (fan_back ∷ fan_lost ∷ [])) (sym history_edges) (Perm.swap _ _ _)

held_back : is_latched (deliver new_latch (fan_back ∷ fan_lost ∷ [])).0 fan_handle ≡ true
unfolding is_latched deliver apply_reachability_edge contains insert_sorted find assign
    transport_failure last_of
held_back = refl

history_is_reasserted_example :
    asked_since_loss fan_handle false new_latch (fan_back ∷ fan_lost ∷ []) ≡ true
history_is_reasserted_example =
    history_is_reasserted fan_handle true (fan ∷ []) (pos 0) history (fan_back ∷ fan_lost ∷ [])
      history_distinct history_small history_swapped history_back held_back

fresh_emitter : fresh_cache.has_emitter ≡ true
unfolding started initialize
fresh_emitter = refl

sections_tell_example :
    told fan_handle
      (marked_in fan_handle fresh_cache.device_states)
      (perform_all fresh_cache lost_and_back).1
    ≡ some (marked_in fan_handle (perform_all fresh_cache lost_and_back).0.device_states)
sections_tell_example =
    sections_tell fan_handle lost_and_back fresh_cache (tt, (tt, tt)) fresh_emitter
