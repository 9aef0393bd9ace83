-- ===== src/Reissue/Drain.antt =====
-- No request is lost: what is queued is run before the thread exits, and a stop makes it exit.
use anolis.Base.{
  ℕ, zero, suc, ◌≡◌, refl, sym, subst, true, false, not, ◌||◌, none, some, arith, List, [], ◌∷◌,
  ◌++◌, Text, contains, text_key, is_empty, length, inl, inr, ◌⊎◌, beq_refl, text_eq_iff,
}
use anolis.Reissue.{
  ReissueWorker, post, stop, wake, call_returns, pop_front, Event, posts, stops, wakes, returns,
  step, run, started, began, new_worker,
}

-- A device waits for its call: in the queue, or counted among the calls started.
contains-append :
    (h : Text) (xs ys : List Text) → contains h (xs ++ ys) ≡ (contains h xs || contains h ys)
unfolding contains
contains-append h [] ys = refl
contains-append h (x ∷ xs) ys = ground (arith, contains-append h xs ys)

abbrev Distinct : List Text → Type 0
Distinct [] = Unit {0}
Distinct (x ∷ xs) = (contains x xs ≡ false) × Distinct xs

-- A request waits at most once, and a thread that has exited was stopped with an empty queue.
pub record Inv (w : ReissueWorker) : Type 0 where
  pub distinct : Distinct w.queue
  pub exited_stopping : w.exited ≡ true → w.stopping ≡ true
  pub exited_empty : w.exited ≡ true → w.queue ≡ []

Distinct-append_last :
    (h : Text) (xs : List Text) → contains h xs ≡ false → Distinct xs → Distinct (xs ++ h ∷ [])
unfolding contains
Distinct-append_last h [] fresh d = (refl, tt)
Distinct-append_last h (x ∷ xs) fresh d = (
  ground (arith, contains-append x xs (h ∷ []), text_eq_iff h x, text_eq_iff x h),
  Distinct-append_last h xs (ground arith) d.1,
)

post-Inv : (w : ReissueWorker) (h : Text) → Inv w → Inv (post w h).0
unfolding post
post-Inv w h v = record {
  distinct = ground (arith, Distinct-append_last h w.queue, v.distinct);
  exited_stopping = ground (arith, v.exited_stopping);
  exited_empty = ground (arith, v.exited_stopping, v.exited_empty);
}

pop_front-Inv :
    (w : ReissueWorker) (queue : List Text)
    → (w.stopping || not (is_empty queue)) ≡ true
    → w.exited ≡ false
    → Distinct queue
    → w.queue ≡ queue
    → Inv (pop_front w queue)
unfolding pop_front
pop_front-Inv w [] go live d e = record {
  distinct = ground arith;
  exited_stopping = ground arith;
  exited_empty = ground arith;
}
pop_front-Inv w (x ∷ rest) go live d e = record {
  distinct = d.1;
  exited_stopping = ground arith;
  exited_empty = ground arith;
}

-- The thread sleeps on, or takes the front of the queue.
wake-cases :
    (w : ReissueWorker)
    → (wake w ≡ w)
      ⊎ ((w.busy ≡ none)
          × (w.exited ≡ false)
          × ((w.stopping || not (is_empty w.queue)) ≡ true)
          × (wake w ≡ pop_front w w.queue))
unfolding wake
wake-cases w = ground arith

pub step-Inv : (w : ReissueWorker) (e : Event) → Inv w → Inv (step w e)
unfolding step wake stop call_returns
step-Inv w (posts h) v = post-Inv w h v
step-Inv w stops v = record {
  distinct = v.distinct;
  exited_stopping = λ _. refl;
  exited_empty = v.exited_empty;
}
step-Inv w wakes v = elim (wake-cases w) [
  | inl same ↦ rw same v
  | inr (idle, live, go, e) ↦ rw e (pop_front-Inv w w.queue go live v.distinct refl)
]
step-Inv w (returns threw) v = record {
  distinct = v.distinct;
  exited_stopping = v.exited_stopping;
  exited_empty = v.exited_empty;
}

pop_front_keeps_request :
    (w : ReissueWorker) (queue : List Text) (h : Text)
    → contains h queue ≡ true
    → (contains h (pop_front w queue).queue ≡ true) ⊎ ((pop_front w queue).busy ≡ some h)
unfolding pop_front contains
pop_front_keeps_request w [] h q = absurd (ground arith)
pop_front_keeps_request w (x ∷ rest) h q = ground (arith, text_eq_iff x h)

wake_keeps_request :
    (w : ReissueWorker) (h : Text)
    → contains h w.queue ≡ true
    → (contains h (wake w).queue ≡ true) ⊎ (began w wakes ≡ some h)
unfolding began
wake_keeps_request w h q = elim (wake-cases w) [
  | inl same ↦ inl (rw same q)
  | inr (idle, live, go, e) ↦ elim (pop_front_keeps_request w w.queue h q) [
    | inl waits ↦ inl (rw e waits)
    | inr runs ↦ inr (rw (idle, began) (rw e runs))
  ]
]

step_keeps_request :
    (w : ReissueWorker) (e : Event) (h : Text)
    → contains h w.queue ≡ true
    → (contains h (step w e).queue ≡ true) ⊎ (began w e ≡ some h)
unfolding step post stop call_returns
step_keeps_request w (posts g) h q = inl (ground (arith, contains-append h w.queue (g ∷ [])))
step_keeps_request w stops h q = inl q
step_keeps_request w wakes h q = wake_keeps_request w h q
step_keeps_request w (returns threw) h q = inl q

run_keeps_request :
    (w : ReissueWorker) (es : List Event) (h : Text)
    → contains h w.queue ≡ true
    → (contains h (run w es).queue ≡ true) ⊎ (contains h (started w es) ≡ true)
unfolding run started contains
run_keeps_request w [] h q = inl q
run_keeps_request w (e ∷ es) h q = elim (step_keeps_request w e h q) [
  | inl waits ↦ ground (arith, run_keeps_request (step w e) es h waits)
  | inr runs ↦ inr (rw (runs, started, contains) (ground (arith, beq_refl h)))
]

run-Inv : (w : ReissueWorker) (es : List Event) → Inv w → Inv (run w es)
unfolding run
run-Inv w [] v = v
run-Inv w (e ∷ es) v = run-Inv (step w e) es (step-Inv w e v)

pub new_worker-Inv : Inv new_worker
new_worker-Inv = record {
  distinct = tt;
  exited_stopping = ground arith;
  exited_empty = ground arith;
}

post_queues : (w w' : ReissueWorker) (h : Text) → post w h ≡ (w', true) → contains h w'.queue ≡ true
unfolding post contains
post_queues w w' h e = ground (arith, contains-append h w.queue (h ∷ []), beq_refl h)

-- From the start on, whatever posts, stops and returns there are in whatever order: a request that
-- was taken up has its call started before the thread exits.
pub request_runs_before_exit :
    (before after : List Event) (h : Text) (w : ReissueWorker)
    → post (run new_worker before) h ≡ (w, true)
    → (run w after).exited ≡ true
    → contains h (started w after) ≡ true
unfolding contains
request_runs_before_exit before after h w taken gone =
    let w₀ = run new_worker before in
    let v : Inv w =
      subst (λ r. Inv r.0) taken (post-Inv w₀ h (run-Inv new_worker before new_worker-Inv)) in
    elim (run_keeps_request w after h (post_queues w₀ w h taken)) [
      | inl waits ↦
          let empty = (run-Inv w after v).exited_empty gone in
          absurd (cc (subst (λ q. contains h q ≡ true) empty waits))
      | inr runs ↦ runs
    ]

-- The events of a thread that is let run: its call returns, it wakes.
unfoldable pub rounds : ℕ → List Event
rounds zero = []
rounds (suc n) = returns false ∷ wakes ∷ rounds n

-- A thread with the queue `q` behind its running call.
drains :
    (q : List Text) (w : ReissueWorker)
    → w.queue ≡ q
    → w.stopping ≡ true
    → w.exited ≡ false
    → (run w (rounds (suc (length q)))).exited ≡ true
unfolding run rounds step wake call_returns
drains [] w e stopped live = ground arith
drains (x ∷ q) w e stopped live =
    let w' : ReissueWorker = record w { queue = q; busy = some x } in
    let e' : step (step w (returns false)) wakes ≡ w' = ground arith in
    subst (λ u. (run u (rounds (suc (length q)))).exited ≡ true) (sym e')
      (drains q w' refl stopped live)

-- From a state in which the thread has not exited, once it is stopped it exits when the running call and
-- then each queued one has returned and it wakes once more.
pub stop_ends :
    (w : ReissueWorker)
    → w.exited ≡ false
    → (run (stop w) (rounds (suc (length w.queue)))).exited ≡ true
unfolding stop
stop_ends w live = drains w.queue (stop w) refl refl live
