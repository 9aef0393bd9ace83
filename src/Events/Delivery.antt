-- ===== src/Events/Delivery.antt =====
-- Every pushed event is accounted for, in any interleaving of pushes and pops.
use mathlib.Core.List.{append_assoc, append-nil}
use anolis.Base.{
  ℕ, suc, ◌+◌, ◌%◌, ◌^◌, ◌≤◌, ◌<◌, ◌≡◌, refl, sym, ap, subst, ◌∙◌, true, false, none, some, arith,
  List, [], ◌∷◌, ◌++◌, length, Bool-cases, inl, inr,
}
use anolis.Events.{Event, SubscriberQueue, new_queue, is_full, pop}
use anolis.Events.Queue.{
  QueueOp, pushes, pops, pushed, then_got, map_run, perform, Sub, sub_keep, sub_skip, Sub-refl,
  List-cases, appended, rotated, push-appended, push-rotated, perform-pushes, appended_fits,
  rotated_fits, empty_not_full, perform-pops, pop-empty, pop-first,
}

-- A queue within its size that has dropped k events so far.
abbrev Sound : SubscriberQueue → ℕ → Type 0
Sound q k = (length q.queue ≤ q.max_size) × (q.dropped_count ≡ k % 2 ^ 64)

-- What a run that ends in q' with `got` accounts for, of the events `all`.
abbrev Accounts : List Event → ℕ → ℕ → SubscriberQueue → List Event → Type 0
Accounts all size k q' got =
    (gone : ℕ) × Sub (got ++ q'.queue) all
    × (length all ≡ length got + length q'.queue + gone)
    × (q'.dropped_count ≡ (k + gone) % 2 ^ 64)
    × (length q'.queue ≤ size)

next_dropped : (k : ℕ) → suc (k % 2 ^ 64) % 2 ^ 64 ≡ suc k % 2 ^ 64
next_dropped k = omega arith

after_append :
    (q q' : SubscriberQueue) (event : Event) (ops : List QueueOp) (k : ℕ) (got : List Event)
    → Accounts ((q.queue ++ event ∷ []) ++ pushed ops) q.max_size k q' got
    → Accounts (q.queue ++ pushed (pushes event ∷ ops)) q.max_size k q' got
after_append q q' event ops k got =
    subst (λ all. Accounts all q.max_size k q' got) (append_assoc q.queue (event ∷ []) (pushed ops))

after_rotate :
    (q q' : SubscriberQueue) (event x : Event) (rest : List Event) (ops : List QueueOp) (k : ℕ)
    (got : List Event)
    → q.queue ≡ x ∷ rest
    → Accounts ((rest ++ event ∷ []) ++ pushed ops) q.max_size (suc k) q' got
    → Accounts (q.queue ++ pushed (pushes event ∷ ops)) q.max_size k q' got
after_rotate q q' event x rest ops k got e (gone, kept, count, dropped, fits) =
    subst (λ all. Accounts (all ++ event ∷ pushed ops) q.max_size k q' got) (sym e)
      (
        suc gone,
        sub_skip x (
            subst (λ all. Sub (got ++ q'.queue) all) (append_assoc rest (event ∷ []) (pushed ops))
              kept),
        omega (arith, count, ap length (append_assoc rest (event ∷ []) (pushed ops))),
        omega (arith, dropped),
        fits,
      )

after_pop :
    (q q' : SubscriberQueue) (x : Event) (rest : List Event) (ops : List QueueOp) (k : ℕ)
    (got : List Event)
    → q.queue ≡ x ∷ rest
    → Accounts (rest ++ pushed ops) q.max_size k q' got
    → Accounts (q.queue ++ pushed (pops ∷ ops)) q.max_size k q' (x ∷ got)
after_pop q q' x rest ops k got e (gone, kept, count, dropped, fits) =
    subst (λ all. Accounts (all ++ pushed ops) q.max_size k q' (x ∷ got)) (sym e)
      (gone, sub_keep x kept, omega (arith, count), dropped, fits)

perform-Sound :
    (q : SubscriberQueue) (ops : List QueueOp) (k : ℕ)
    → 0 < q.max_size
    → Sound q k
    → (q' : SubscriberQueue) × (got : List Event) × (perform q ops ≡ some (q', got))
      × Accounts (q.queue ++ pushed ops) q.max_size k q' got
unfolding perform pop
perform-Sound q [] k some_room (fits, count) = (
  q,
  [],
  refl,
  (
    0,
    subst (Sub q.queue) (sym (append-nil q.queue)) (Sub-refl q.queue),
    omega (arith, ap length (append-nil q.queue)),
    omega arith,
    fits,
  ),
)
perform-Sound q (pushes event ∷ ops) k some_room (fits, count) = elim (Bool-cases (is_full q)) [
  | inr free ↦
      let (q', got, run, accounts) =
        perform-Sound (appended q event) ops k some_room (appended_fits q event free, count) in
      (
        q',
        got,
        perform-pushes q (appended q event) true event ops (push-appended q event free) ∙ run,
        after_append q q' event ops k got accounts,
      )
  | inl full ↦ elim (List-cases q.queue) [
    | inl empty ↦ absurd (empty_not_full q some_room empty full)
    | inr (x, rest, e) ↦
        let (q', got, run, accounts) =
          perform-Sound (rotated q rest event) ops (suc k) some_room
            (rotated_fits q x rest e fits event, omega arith) in
        (
          q',
          got,
          perform-pushes q (rotated q rest event) false event ops
                (push-rotated q event x rest full e)
              ∙ run,
          after_rotate q q' event x rest ops k got e accounts,
        )
  ]
]
perform-Sound q (pops ∷ ops) k some_room (fits, count) = elim (List-cases q.queue) [
  | inl empty ↦
      let (q', got, run, accounts) = perform-Sound q ops k some_room (fits, count) in
      (
        q',
        got,
        perform-pops q q none ops (pop-empty q empty) ∙ ap (map_run (then_got none)) run,
        accounts,
      )
  | inr (x, rest, e) ↦
      let (q', got, run, accounts) =
        perform-Sound (record q { queue = rest }) ops k some_room
          (omega (arith, ap length e), count) in
      (
        q',
        x ∷ got,
        perform-pops q (record q { queue = rest }) (some x) ops (pop-first q x rest e)
            ∙ ap (map_run (then_got (some x))) run,
        after_pop q q' x rest ops k got e accounts,
      )
]

-- A queue with room for an event never faults, whatever its producer and its consumer do. The events
-- that the consumer got, followed by those that wait, are the pushed ones in order with some left
-- out; as many as are missing are counted as dropped, up to the wrap of size_t; and no more than
-- max_size wait.
pub queue_history :
    (max_size : ℕ) (ops : List QueueOp)
    → 0 < max_size
    → (q : SubscriberQueue) × (got : List Event) × (gone : ℕ) × (perform (new_queue max_size) ops
        ≡ some (q, got))
      × Sub (got ++ q.queue) (pushed ops)
      × (length (pushed ops) ≡ length got + length q.queue + gone)
      × (q.dropped_count ≡ gone % 2 ^ 64)
      × (length q.queue ≤ max_size)
unfolding new_queue
queue_history max_size ops some_room =
    let (q, got, run, (gone, kept, count, dropped, fits)) =
      perform-Sound (new_queue max_size) ops 0 some_room (omega arith, omega arith) in
    (q, got, gone, run, kept, count, omega (arith, dropped), fits)
