-- ===== src/Events/Queue.antt =====
-- A subscriber's queue over any interleaving of its producer and its consumer.
use anolis.Base.{
  suc, ◌%◌, ◌^◌, ◌≤◌, ◌<◌, ◌≡◌, refl, ap, Bool, true, false, Option, none, some, arith, List, [],
  ◌∷◌, ◌++◌, length, length-append, inl, inr, ◌⊎◌,
}
use anolis.Events.{Event, SubscriberQueue, is_full, push, pop}

-- What the two threads do with the queue.
pub data QueueOp : Type 0 where
  pushes : Event → QueueOp
  pops : QueueOp

abbrev pub pushed : List QueueOp → List Event
pushed [] = []
pushed (pushes event ∷ ops) = event ∷ pushed ops
pushed (pops ∷ ops) = pushed ops

abbrev pub then_got : Option Event → SubscriberQueue × List Event → SubscriberQueue × List Event
then_got none r = r
then_got (some event) (q, got) = (q, event ∷ got)

abbrev pub map_run :
    (SubscriberQueue × List Event → SubscriberQueue × List Event)
    → Option (SubscriberQueue × List Event)
    → Option (SubscriberQueue × List Event)
map_run f none = none
map_run f (some r) = some (f r)

-- The queue after the operations, and what the consumer got, in order.
unfoldable pub perform : SubscriberQueue → List QueueOp → Option (SubscriberQueue × List Event)
unfolding push pop
perform q [] = some (q, [])
perform q (pushes event ∷ ops) = elim (push q event) [ none ↦ none | some (q', _) ↦ perform q' ops ]
perform q (pops ∷ ops) = map_run (then_got (pop q).1) (perform (pop q).0 ops)

-- xs is ys with some of its elements left out.
pub data Sub {ℓ} {A : Type ℓ} : List A → List A → Type ℓ where
  sub_empty : Sub [] []
  sub_keep : (x : A) {xs ys : List A} → Sub xs ys → Sub (x ∷ xs) (x ∷ ys)
  sub_skip : (y : A) {xs ys : List A} → Sub xs ys → Sub xs (y ∷ ys)

pub Sub-refl {ℓ} : {A : Type ℓ} (xs : List A) → Sub xs xs
Sub-refl [] = sub_empty
Sub-refl (x ∷ xs) = sub_keep x (Sub-refl xs)

pub List-cases {ℓ} :
    {A : Type ℓ} (xs : List A) → (xs ≡ []) ⊎ ((x : A) × (rest : List A) × (xs ≡ x ∷ rest))
List-cases [] = inl refl
List-cases (x ∷ rest) = inr (x, rest, refl)

abbrev pub appended : SubscriberQueue → Event → SubscriberQueue
appended q event = record q { queue = q.queue ++ event ∷ [] }

abbrev pub rotated : SubscriberQueue → List Event → Event → SubscriberQueue
rotated q rest event = record q {
  queue = rest ++ event ∷ [];
  dropped_count = suc q.dropped_count % 2 ^ 64;
}

pub push-appended :
    (q : SubscriberQueue) (event : Event)
    → is_full q ≡ false
    → push q event ≡ some (appended q event, true)
unfolding push
push-appended q event h = rw (h, push) refl

pub push-rotated :
    (q : SubscriberQueue) (event x : Event) (rest : List Event)
    → is_full q ≡ true
    → q.queue ≡ x ∷ rest
    → push q event ≡ some (rotated q rest event, false)
unfolding push
push-rotated q event x rest h e = rw (h, e, push) refl

pub perform-pushes :
    (q q' : SubscriberQueue) (taken : Bool) (event : Event) (ops : List QueueOp)
    → push q event ≡ some (q', taken)
    → perform q (pushes event ∷ ops) ≡ perform q' ops
unfolding perform
perform-pushes q q' taken event ops h = rw (h, perform) refl

pub appended_fits :
    (q : SubscriberQueue) (event : Event)
    → is_full q ≡ false
    → length (q.queue ++ event ∷ []) ≤ q.max_size
unfolding is_full
appended_fits q event free = ground (arith, length-append q.queue (event ∷ []))

pub rotated_fits :
    (q : SubscriberQueue) (x : Event) (rest : List Event)
    → q.queue ≡ x ∷ rest
    → length q.queue ≤ q.max_size
    → (event : Event) → length (rest ++ event ∷ []) ≤ q.max_size
rotated_fits q x rest e fits event = omega (arith, length-append rest (event ∷ []), ap length e)

pub empty_not_full : (q : SubscriberQueue) → 0 < q.max_size → q.queue ≡ [] → is_full q ≡ true → ⊥
unfolding is_full
empty_not_full q some_room e full = ground (arith, ap length e)

pub perform-pops :
    (q q' : SubscriberQueue) (o : Option Event) (ops : List QueueOp)
    → pop q ≡ (q', o)
    → perform q (pops ∷ ops) ≡ map_run (then_got o) (perform q' ops)
unfolding perform
perform-pops q q' o ops h = ap (λ r. map_run (then_got r.1) (perform r.0 ops)) h

pub pop-empty : (q : SubscriberQueue) → q.queue ≡ [] → pop q ≡ (q, none)
unfolding pop
pop-empty q e = ground arith

pub pop-first :
    (q : SubscriberQueue) (x : Event) (rest : List Event)
    → q.queue ≡ x ∷ rest
    → pop q ≡ (record q { queue = rest }, some x)
unfolding pop
pop-first q x rest e = rw (e, pop) refl
