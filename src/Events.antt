-- ===== src/Events.antt =====
-- core/events/{event_types.hpp,event_emitter.hpp,event_emitter.cpp}: the events, a subscriber's
-- queue and its filter. Each method of the queue is one critical section of its lock.
pub mod Emitter
pub mod Queue
pub mod Delivery
use anolis.Base.{
  ℕ, suc, ◌+◌, ◌%◌, ◌^◌, Bool, true, false, not, ◌&&◌, ◌||◌, Option, none, some, List, [], ◌∷◌,
  ◌++◌, if◌then◌else◌, leb, Text, codes, text_eq, length, is_empty, ℤ,
}

pub data Quality : Type 0 where
  quality_ok quality_stale quality_unavailable quality_fault : Quality

unfoldable pub quality_to_string : Quality → Text
quality_to_string quality_ok = codes "OK"
quality_to_string quality_stale = codes "STALE"
quality_to_string quality_unavailable = codes "UNAVAILABLE"
quality_to_string quality_fault = codes "FAULT"

-- A double by its bits, as values_equal compares it.
pub data TypedValue : Type 0 where
  typed_double : ℕ → TypedValue
  typed_int64 : ℤ → TypedValue
  typed_uint64 : ℕ → TypedValue
  typed_bool : Bool → TypedValue
  typed_string : Text → TypedValue

-- The variant without the two fields that every alternative has.
pub data EventBody : Type 0 where
  state_update : Text → Text → Text → TypedValue → Quality → EventBody
  quality_change : Text → Text → Text → Quality → Quality → EventBody
  device_availability : Text → Text → Bool → EventBody
  mode_change : Text → Text → EventBody
  parameter_change : Text → Text → Text → EventBody
  automation_fault : Text → Text → EventBody
  automation_call_failed : Text → Text → Text → ℕ → EventBody
  device_removed : Text → Text → EventBody
  stop_chain : Text → Text → Text → EventBody
  stop_chain_mismatch : Text → Text → Bool → Text → EventBody

pub record Event : Type 0 where
  pub event_id : ℕ
  pub timestamp_ms : ℤ
  pub body : EventBody

pub record SubscriberQueue : Type 0 where
  pub max_size : ℕ
  pub queue : List Event
  pub dropped_count : ℕ
  pub closed : Bool

unfoldable pub new_queue : ℕ → SubscriberQueue
new_queue max_size = record { max_size = max_size; queue = []; dropped_count = 0; closed = false }

unfoldable pub is_full : SubscriberQueue → Bool
is_full q = leb q.max_size (length q.queue)

-- Whether the event was taken without dropping another. `none` stands for `front()` of an empty
-- queue. size_t wraps around.
unfoldable pub push : SubscriberQueue → Event → Option (SubscriberQueue × Bool)
unfolding is_full
push q event =
    if is_full q
    then elim q.queue [
      | [] ↦ none
      | _ ∷ rest ↦ some (
        record q { queue = rest ++ event ∷ []; dropped_count = suc q.dropped_count % 2 ^ 64 },
        false,
      )
    ]
    else some (record q { queue = q.queue ++ event ∷ [] }, true)

-- What pop does once its wait is over, by a notification or by the timeout.
unfoldable pub pop : SubscriberQueue → SubscriberQueue × Option Event
pop q = elim q.queue [ [] ↦ (q, none) | event ∷ rest ↦ (record q { queue = rest }, some event) ]

unfoldable pub close : SubscriberQueue → SubscriberQueue
close q = record q { closed = true }

pub record EventFilter : Type 0 where
  pub filter_provider : Text
  pub filter_device : Text
  pub filter_signal : Text

-- provider_id and device_id of the alternatives that have both, and signal_id of those that have it.
unfoldable pub device_of : EventBody → Option (Text × Text)
device_of (state_update provider device _ _ _) = some (provider, device)
device_of (quality_change provider device _ _ _) = some (provider, device)
device_of (device_availability provider device _) = some (provider, device)
device_of (device_removed provider device) = some (provider, device)
device_of _ = none

unfoldable pub signal_of : EventBody → Option Text
signal_of (state_update _ _ signal _ _) = some signal
signal_of (quality_change _ _ signal _ _) = some signal
signal_of _ = none

abbrev pub passes : Text → Option Text → Bool
passes wanted none = true
passes wanted (some got) = is_empty wanted || text_eq got wanted

abbrev pub first_of : Option (Text × Text) → Option Text
first_of none = none
first_of (some p) = some p.0

abbrev pub second_of : Option (Text × Text) → Option Text
second_of none = none
second_of (some p) = some p.1

unfoldable pub matches : EventFilter → Event → Bool
unfolding device_of signal_of
matches filter event =
    passes filter.filter_provider (first_of (device_of event.body))
    && passes filter.filter_device (second_of (device_of event.body))
    && passes filter.filter_signal (signal_of event.body)
