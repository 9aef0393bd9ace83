-- ===== src/Reissue.antt =====
-- core/control/reissue_worker.{hpp,cpp}: one thread that runs the safe-state re-assertions posted to
-- it, and drains its queue when it is stopped. The worker is a machine over events: a post, the
-- stop, the thread waking with the lock, and the return of the running call, which may have thrown.
-- The call itself (`reissue_`) is a parameter of the class and does not enter.
pub mod Drain
use anolis.Base.{
  ℕ, suc, Bool, true, false, not, ◌&&◌, ◌||◌, Option, none, some, List, [], ◌∷◌, ◌++◌,
  if◌then◌else◌, Text, contains, text_key, is_empty,
}

pub record ReissueWorker : Type 0 where
  pub queue : List Text
  pub stopping : Bool
  pub busy : Option Text
  pub exited : Bool

abbrev pub new_worker : ReissueWorker
new_worker = record { queue = []; stopping = false; busy = none; exited = false }

-- The worker after the post, and whether the request was taken up (queued now or already waiting).
unfoldable pub post : ReissueWorker → Text → ReissueWorker × Bool
post w device_handle =
    if w.stopping
    then (w, false)
    else if contains device_handle w.queue
    then (w, true)
    else (record w { queue = w.queue ++ device_handle ∷ [] }, true)

-- The flag that `stop` sets; its join is the wait for `exited`.
unfoldable pub stop : ReissueWorker → ReissueWorker
stop w = record w { stopping = true }

unfoldable pub pop_front : ReissueWorker → List Text → ReissueWorker
pop_front w [] = record w { exited = true }
pop_front w (device_handle ∷ rest) = record w { queue = rest; busy = some device_handle }

-- The thread wakes in its wait: it goes on only when stopping or with a request in the queue.
unfoldable pub wake : ReissueWorker → ReissueWorker
unfolding pop_front
wake w = elim w.busy [
  | some _ ↦ w
  | none ↦ if w.exited || not (w.stopping || not (is_empty w.queue)) then w else pop_front w w.queue
]

-- The running call comes back, with or without an exception, which is caught.
unfoldable pub call_returns : ReissueWorker → Bool → ReissueWorker
call_returns w threw = record w { busy = none }

pub data Event : Type 0 where
  posts : Text → Event
  stops wakes : Event
  returns : Bool → Event

unfoldable pub step : ReissueWorker → Event → ReissueWorker
unfolding post stop wake call_returns
step w (posts h) = (post w h).0
step w stops = stop w
step w wakes = wake w
step w (returns threw) = call_returns w threw

unfoldable pub run : ReissueWorker → List Event → ReissueWorker
run w [] = w
run w (e ∷ es) = run (step w e) es

-- The call that an event starts.
unfoldable pub began : ReissueWorker → Event → Option Text
unfolding step
began w e = elim w.busy [ some _ ↦ none | none ↦ (step w e).busy ]

-- The calls that these events start, in order.
unfoldable pub started : ReissueWorker → List Event → List Text
started w [] = []
started w (e ∷ es) = elim (began w e) [
  | none ↦ started (step w e) es
  | some h ↦ h ∷ started (step w e) es
]
