-- ===== src/StateCache/Publish.antt =====
-- The events that go to the emitter (emit_state_update, emit_device_availability, emit_device_removed)
-- and what other parts read of the cache.
use anolis.Base.{ℕ, Option, none, some, List, [], ◌∷◌, length, Text, codes, text_key, find}
use anolis.Protocol.{
  Doubles, Value, type_bool, type_int64, type_uint64, type_double, type_string, type_bytes,
  type_other, get_bool, get_int64, get_uint64, get_double, get_string, get_bytes, SignalQuality,
  signal_ok, signal_stale, signal_fault,
}
use anolis.Events.{
  Quality, quality_ok, quality_stale, quality_unavailable, quality_fault, TypedValue, typed_double,
  typed_int64, typed_uint64, typed_bool, typed_string, EventBody, state_update, device_availability,
  device_removed,
}
use anolis.StateCache.{
  CachedSignalValue, DeviceState, StateCache, Notice, availability, removed, updated, reachability,
}

unfoldable pub event_quality : SignalQuality → Quality
event_quality signal_ok = quality_ok
event_quality signal_stale = quality_stale
event_quality signal_fault = quality_fault
event_quality _ = quality_unavailable

module _ {D : Doubles} where
  open D use {double_bits}

  unfoldable pub typed_value : Value D → TypedValue
  typed_value v = elim v.value_type [
    | type_double ↦ typed_double (double_bits (get_double v.kind))
    | type_int64 ↦ typed_int64 (get_int64 v.kind)
    | type_uint64 ↦ typed_uint64 (get_uint64 v.kind)
    | type_bool ↦ typed_bool (get_bool v.kind)
    | type_string ↦ typed_string (get_string v.kind)
    | type_bytes ↦ typed_string (get_bytes v.kind)
    | type_other _ ↦ typed_string (codes "<unknown>")
  ]

  -- The bodies of the events, in order; the emitter gives each its number and its time.
  unfoldable pub events_of : List (Notice D) → List EventBody
  unfolding typed_value event_quality
  events_of [] = []
  events_of (availability p d b ∷ ns) = device_availability p d b ∷ events_of ns
  events_of (removed p d ∷ ns) = device_removed p d ∷ events_of ns
  events_of (updated p d s v q ∷ ns) =
      state_update p d s (typed_value v) (event_quality q) ∷ events_of ns
  events_of (reachability _ ∷ ns) = events_of ns

  unfoldable pub get_device_state : StateCache D → Text → Option (DeviceState D)
  unfolding find
  get_device_state c handle = find handle c.device_states

  unfoldable pub get_signal_value : StateCache D → Text → Text → Option (CachedSignalValue D)
  unfolding find
  get_signal_value c handle signal_id = elim (find handle c.device_states) [
    | none ↦ none
    | some s ↦ find signal_id s.signals
  ]

  unfoldable pub device_count : StateCache D → ℕ
  device_count c = length c.device_states
