-- ===== src/Events/Emitter/Capacity.antt =====
-- The bound on the number of subscribers.
use anolis.Base.{
  ℕ, suc, ◌≤◌, ◌<◌, ◌≡◌, refl, ◌∙◌, true, false, none, some, arith, List, [], ◌∷◌, length, nat_key,
  Map, find, assign, erase, find-assign, beq_refl, inl, inr, ◌⊎◌,
}
use anolis.Events.{EventFilter}
use anolis.Events.Emitter.{EventEmitter, new_emitter, at_capacity, subscribe, unsubscribe}

length-assign : {V : Type 0} (k : ℕ) (v : V) (m : Map ℕ V) → length (assign k v m) ≤ suc (length m)
unfolding assign
length-assign k v [] = omega arith
length-assign k v ((j, w) ∷ m) = ground (arith, length-assign k v m)

length-erase : {V : Type 0} (k : ℕ) (m : Map ℕ V) → length (erase k m) ≤ length m
unfolding erase
length-erase k [] = omega arith
length-erase k ((j, w) ∷ m) = ground (arith, length-erase k m)

-- Subscriptions that come and go.
pub data Access : Type 0 where
  subscribes : EventFilter → ℕ → Access
  unsubscribes : ℕ → Access

unfoldable pub access : EventEmitter → Access → EventEmitter
unfolding subscribe unsubscribe
access m (subscribes filter queue_size) = (subscribe m filter queue_size).0
access m (unsubscribes id) = unsubscribe m id

abbrev pub access_all : EventEmitter → List Access → EventEmitter
access_all m [] = m
access_all m (a ∷ accesses) = access_all (access m a) accesses

abbrev Bounded : ℕ → EventEmitter → Type 0
Bounded most m = (m.max_subscribers ≡ most) × (length m.subscribers ≤ most)

access-Bounded :
    (most : ℕ) (m : EventEmitter) (a : Access)
    → 0 < most
    → Bounded most m
    → Bounded most (access m a)
unfolding access at_capacity
access-Bounded most m (subscribes filter queue_size) some_room (same, fits) =
    ground (arith, length-assign m.next_subscription_id filter m.subscribers)
access-Bounded most m (unsubscribes id) some_room (same, fits) =
    ground (arith, length-erase id m.subscribers)

access_all-Bounded :
    (most : ℕ) (m : EventEmitter) (accesses : List Access)
    → 0 < most
    → Bounded most m
    → Bounded most (access_all m accesses)
access_all-Bounded most m [] some_room bounded = bounded
access_all-Bounded most m (a ∷ accesses) some_room bounded =
    access_all-Bounded most (access m a) accesses some_room
      (access-Bounded most m a some_room bounded)

-- What a subscription does to an emitter within its limit.
abbrev pub Judged : ℕ → EventEmitter → EventFilter → ℕ → Type 0
Judged most m filter queue_size =
    (((subscribe m filter queue_size).1 ≡ none) × (length m.subscribers ≡ most))
    ⊎ ((id : ℕ) × ((subscribe m filter queue_size).1 ≡ some id)
        × (length m.subscribers < most)
        × (find id (subscribe m filter queue_size).0.subscribers ≡ some filter))

full_at_limit :
    (most : ℕ) (m : EventEmitter)
    → 0 < most
    → Bounded most m
    → ((at_capacity m ≡ true) × (length m.subscribers ≡ most))
      ⊎ ((at_capacity m ≡ false) × (length m.subscribers < most))
unfolding at_capacity
full_at_limit most m some_room (same, fits) = ground arith

subscribe-rejects :
    (m : EventEmitter) (filter : EventFilter) (queue_size : ℕ)
    → at_capacity m ≡ true
    → (subscribe m filter queue_size).1 ≡ none
unfolding subscribe
subscribe-rejects m filter queue_size full = rw (full, subscribe) refl

subscribe-accepts :
    (m : EventEmitter) (filter : EventFilter) (queue_size : ℕ)
    → at_capacity m ≡ false
    → ((subscribe m filter queue_size).1 ≡ some m.next_subscription_id)
      × (find m.next_subscription_id (subscribe m filter queue_size).0.subscribers ≡ some filter)
unfolding subscribe
subscribe-accepts m filter queue_size free = (
  rw (free, subscribe) refl,
  rw (free, subscribe)
      (find-assign m.next_subscription_id m.next_subscription_id filter m.subscribers
        ∙ rw (beq_refl m.next_subscription_id) refl),
)

subscribe-Judged :
    (most : ℕ) (m : EventEmitter) (filter : EventFilter) (queue_size : ℕ)
    → 0 < most
    → Bounded most m
    → Judged most m filter queue_size
subscribe-Judged most m filter queue_size some_room bounded =
    elim (full_at_limit most m some_room bounded) [
      | inl (full, reached) ↦ inl (subscribe-rejects m filter queue_size full, reached)
      | inr (free, below) ↦
          let (accepted, in_force) = subscribe-accepts m filter queue_size free in
          inr (m.next_subscription_id, accepted, below, in_force)
    ]

-- An emitter with a limit never has more subscribers than that, whatever subscriptions come and go;
-- and then the next subscription is rejected exactly when the limit is reached, and otherwise its
-- filter is in force.
pub subscribers_bounded :
    (default_queue_size most : ℕ) (accesses : List Access) (filter : EventFilter) (queue_size : ℕ)
    → 0 < most
    → (length (access_all (new_emitter default_queue_size most) accesses).subscribers ≤ most)
      × Judged most (access_all (new_emitter default_queue_size most) accesses) filter queue_size
unfolding new_emitter
subscribers_bounded default_queue_size most accesses filter queue_size some_room =
    let bounded =
      access_all-Bounded most (new_emitter default_queue_size most) accesses some_room
        (refl, omega arith) in
    (
      bounded.1,
      subscribe-Judged most (access_all (new_emitter default_queue_size most) accesses) filter
          queue_size some_room bounded,
    )
