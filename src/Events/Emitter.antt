-- ===== src/Events/Emitter.antt =====
-- EventEmitter and Subscription. A queue is shared by the emitter and its subscription: the queues
-- are a store here, named by the subscription's id. `emit` is two steps, since it pushes without the
-- emitter's lock: stamp under the lock, then one push for each of its targets.
pub mod Capacity
use anolis.Base.{
  ℕ, suc, ◌%◌, ◌^◌, Bool, true, false, not, ◌&&◌, ◌||◌, Option, none, some, List, [], ◌∷◌, ◌++◌,
  if◌then◌else◌, ltb, leb, eqb, nat_key, Map, find, assign, erase, length,
}
use anolis.Events.{Event, EventFilter, SubscriberQueue, new_queue, push, close, matches, Quality}

pub record EventEmitter : Type 0 where
  pub default_queue_size : ℕ
  pub max_subscribers : ℕ
  pub next_subscription_id : ℕ
  pub next_event_id : ℕ
  pub subscribers : Map ℕ EventFilter
  pub queues : Map ℕ SubscriberQueue

unfoldable pub new_emitter : ℕ → ℕ → EventEmitter
new_emitter default_queue_size max_subscribers = record {
  default_queue_size = default_queue_size;
  max_subscribers = max_subscribers;
  next_subscription_id = 1;
  next_event_id = 1;
  subscribers = [];
  queues = [];
}

unfoldable pub at_capacity : EventEmitter → Bool
at_capacity m = ltb 0 m.max_subscribers && leb m.max_subscribers (length m.subscribers)

-- The id of the subscription that is made, or none when it is rejected.
unfoldable pub subscribe : EventEmitter → EventFilter → ℕ → EventEmitter × Option ℕ
unfolding at_capacity new_queue assign
subscribe m filter queue_size = if at_capacity m then (m, none) else (
  record m {
    next_subscription_id = suc m.next_subscription_id % 2 ^ 64;
    subscribers = assign m.next_subscription_id filter m.subscribers;
    queues =
        assign m.next_subscription_id
          (new_queue (if ltb 0 queue_size then queue_size else m.default_queue_size)) m.queues;
  },
  some m.next_subscription_id,
)

abbrev pub close_queue : ℕ → Map ℕ SubscriberQueue → Map ℕ SubscriberQueue
unfolding find assign close
close_queue id queues = elim (find id queues) [
  | none ↦ queues
  | some q ↦ assign id (close q) queues
]

unfoldable pub unsubscribe : EventEmitter → ℕ → EventEmitter
unfolding find erase
unsubscribe m id = elim (find id m.subscribers) [
  | none ↦ m
  | some _ ↦ record m { subscribers = erase id m.subscribers; queues = close_queue id m.queues }
]

-- The emitter's destructor.
unfoldable pub close_all : Map ℕ EventFilter → Map ℕ SubscriberQueue → Map ℕ SubscriberQueue
close_all [] queues = queues
close_all ((id, filter) ∷ subscribers) queues = close_all subscribers (close_queue id queues)

unfoldable pub targets_of : Map ℕ EventFilter → Event → List ℕ
unfolding matches
targets_of [] event = []
targets_of ((id, filter) ∷ subscribers) event =
    let rest = targets_of subscribers event in if matches filter event then id ∷ rest else rest

-- The first half of emit: the event with its id, and the queues it goes to.
unfoldable pub stamp : EventEmitter → Event → EventEmitter × (Event × List ℕ)
unfolding targets_of
stamp m event =
    let stamped = record event { event_id = m.next_event_id } in
    (
      record m { next_event_id = suc m.next_event_id % 2 ^ 64 },
      (stamped, targets_of m.subscribers stamped),
    )

-- One push of the second half; `none` where a push faults.
unfoldable pub push_to : ℕ → Event → Map ℕ SubscriberQueue → Option (Map ℕ SubscriberQueue)
unfolding find assign push
push_to id event queues = elim (find id queues) [
  | none ↦ some queues
  | some q ↦ elim (push q event) [ none ↦ none | some (q', _) ↦ some (assign id q' queues) ]
]

unfoldable pub push_all : List ℕ → Event → Map ℕ SubscriberQueue → Option (Map ℕ SubscriberQueue)
unfolding push_to
push_all [] event queues = some queues
push_all (id ∷ ids) event queues = elim (push_to id event queues) [
  | none ↦ none
  | some queues' ↦ push_all ids event queues'
]

unfoldable pub emit : EventEmitter → Event → Option EventEmitter
unfolding stamp push_all
emit m event = elim (push_all ((stamp m event).1).1 ((stamp m event).1).0 m.queues) [
  | none ↦ none
  | some queues ↦ some (record (stamp m event).0 { queues = queues })
]
