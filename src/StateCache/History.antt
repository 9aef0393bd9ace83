-- ===== src/StateCache/History.antt =====
-- Histories of a cache: polls of all devices and of one, single sections of a poll as they fall
-- between those of another thread, and rebuilds.
use anolis.Base.{
  ◌≡◌, refl, subst, Bool, true, false, some, List, [], ◌∷◌, arith, All, Text, text_key, Map, find,
  find-assign, ℤ,
}
use anolis.Protocol.{Doubles}
use anolis.Registry.{RegisteredDevice, get_handle}
use anolis.StateCache.{DeviceState, StateCache, Notice}
use anolis.StateCache.Polling.{
  ReadResult, PollReadings, poll_device, mark_unavailable, also, poll_once, poll_device_now,
}
use anolis.StateCache.Edges.{
  Watch, watch, watch_of, lost_in, is_apart, Ready, Traced, poll_device-Traced,
  mark_unavailable-Traced,
}
use anolis.StateCache.Carry.{handles_of, is_distinct}
use anolis.StateCache.Rebuild.{
  initialize, initial_states, rebuild_poll_configs, default_carried, state_with,
}
use anolis.StateCache.Polls.{still, also-Traced, poll_once-Traced, poll_device_now-Traced}
use anolis.StateCache.Reconcile.{rebuild_poll_configs-Traced}

abbrev pub new_watch : Watch
new_watch = record { last_seq = 0; is_lost = false }

pub data Op (D : Doubles) : Type 0 where
  read : Text → Text → ReadResult D → Op D
  marked : Text → Text → Bool → Op D
  polled : PollReadings D → Op D
  polled_now : Text → PollReadings D → Op D
  rebuilt : Text → List (RegisteredDevice D) → ℤ → Op D

module _ {D : Doubles} where
  -- The cache that the runtime makes: wired to the emitter and to the sink, then initialized.
  unfoldable pub started : Bool → Bool → List (RegisteredDevice D) → ℤ → StateCache D
  unfolding initialize
  started emitter sink devices now =
      initialize
        (record {
          has_emitter = emitter;
          has_sink = sink;
          initialized = false;
          poll_configs = [];
          device_states = [];
          reachability_edge_seq = 0;
          departed = [];
          outages = [];
        })
        devices now

  unfoldable pub perform : StateCache D → Op D → StateCache D × List (Notice D)
  unfolding poll_device mark_unavailable poll_once poll_device_now rebuild_poll_configs
  perform c (read p d result) = poll_device c p d result
  perform c (marked p d shutting_down) = mark_unavailable c p d shutting_down
  perform c (polled seen) = poll_once c seen
  perform c (polled_now handle seen) = poll_device_now c handle seen
  perform c (rebuilt p devices now) = rebuild_poll_configs c p devices now

  unfoldable pub perform_all : StateCache D → List (Op D) → StateCache D × List (Notice D)
  unfolding perform
  perform_all c [] = (c, [])
  perform_all c (op ∷ ops) = also (perform c op) (λ c'. perform_all c' ops)

  -- An inventory that a rebuild reads has no handle twice.
  abbrev pub HasDistinctHandles : Op D → Type 0
  unfolding is_distinct handles_of
  HasDistinctHandles (rebuilt p devices now) = is_distinct (handles_of p devices) ≡ true
  HasDistinctHandles _ = Unit {0}

  perform-Traced :
      (h : Text) (op : Op D) (c : StateCache D)
      → HasDistinctHandles op
      → Ready c h
      → Traced h c (perform c op)
  unfolding perform HasDistinctHandles
  perform-Traced h (read p d result) c v r = poll_device-Traced c h p d result r
  perform-Traced h (marked p d b) c v r = mark_unavailable-Traced c h p d b r
  perform-Traced h (polled seen) c v r = poll_once-Traced h seen c r
  perform-Traced h (polled_now handle seen) c v r = poll_device_now-Traced h handle seen c r
  perform-Traced h (rebuilt p devices now) c v r = rebuild_poll_configs-Traced c h p devices now v r

  pub perform_all-Traced :
      (h : Text) (ops : List (Op D)) (c : StateCache D)
      → All HasDistinctHandles ops
      → Ready c h
      → Traced h c (perform_all c ops)
  unfolding perform_all
  perform_all-Traced h [] c v r = still c h r
  perform_all-Traced h (op ∷ ops) c v r =
      also-Traced h c _ _ (perform-Traced h op c v.0 r) λ c' r'. perform_all-Traced h ops c' v.1 r'

  initial_states-fresh :
      (h : Text) (devices : List (RegisteredDevice D)) (now : ℤ) (states : Map Text (DeviceState D))
      → lost_in h states [] ≡ false
      → lost_in h (initial_states devices now states) [] ≡ false
  unfolding initial_states lost_in find
  initial_states-fresh h [] now states e = e
  initial_states-fresh h (device ∷ devices) now states e = initial_states-fresh h devices now _ (
      ground (
        arith,
        find-assign (get_handle device) h (state_with (get_handle device) default_carried now)
            states,
      ))

  -- Whatever polls, single sections and rebuilds follow one another on a cache wired to the sink, as
  -- long as no rebuild reads an inventory with a handle of the provider in it twice: the edges that the
  -- sink gets are numbered one after another from 1, modulo 2^64; those of each device are a loss and
  -- a return in turn, a loss first; and after them the cache holds the device for lost exactly when
  -- its last edge was a loss.
  pub edges_in_turn :
      (h : Text) (emitter : Bool) (devices : List (RegisteredDevice D)) (now : ℤ)
      (ops : List (Op D))
      → All HasDistinctHandles ops
      → watch h new_watch (perform_all (started emitter true devices now) ops).1
        ≡ some (watch_of (perform_all (started emitter true devices now) ops).0 h)
  unfolding started initialize is_apart lost_in find
  edges_in_turn h emitter devices now ops v =
      subst
        (λ b.
          watch h (record { last_seq = 0; is_lost = b })
            (perform_all (started emitter true devices now) ops).1
          ≡ some (watch_of (perform_all (started emitter true devices now) ops).0 h))
        (initial_states-fresh h devices now [] (ground arith))
        (perform_all-Traced h ops (started emitter true devices now) v
          record { sink = refl; apart = ground arith }).edges
