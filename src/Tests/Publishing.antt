-- ===== src/Tests/Publishing.antt =====
-- Events at work: a queue of one event that overflows, and an emitter with room for one subscriber.
use anolis.Base.{
  ℕ, ◌+◌, ◌%◌, ◌^◌, ◌≤◌, ◌≡◌, some, arith, List, [], ◌∷◌, ◌++◌, length, codes, pos, nat_key,
}
use anolis.Events.{Event, EventFilter, SubscriberQueue, mode_change, new_queue}
use anolis.Events.Queue.{pushes, pops, perform, Sub}
use anolis.Events.Delivery.{queue_history}

abbrev event : ℕ → Event
event id = record {
  event_id = id;
  timestamp_ms = pos 1000;
  body = mode_change (codes "IDLE") (codes "MANUAL");
}

queue_history_example :
    (q : SubscriberQueue) × (got : List Event) × (gone : ℕ) × (perform
        (new_queue 1)
        (pushes (event 1) ∷ pushes (event 2) ∷ pops ∷ pops ∷ [])
      ≡ some (q, got))
    × Sub (got ++ q.queue) (event 1 ∷ event 2 ∷ [])
    × (2 ≡ length got + length q.queue + gone)
    × (q.dropped_count ≡ gone % 2 ^ 64)
    × (length q.queue ≤ 1)
queue_history_example =
    queue_history 1 (pushes (event 1) ∷ pushes (event 2) ∷ pops ∷ pops ∷ []) (omega arith)

abbrev everything : EventFilter
everything = record { filter_provider = []; filter_device = []; filter_signal = [] }
