-- ===== src/StopChain.antt =====
-- core/control/stop_chain.{hpp,cpp}: the emergency stop as the runtime observes it through a signal of
-- the state cache, and the devices that contradict it. A reason is a value with what its text says.
pub mod Released
pub mod Held
use anolis.Base.{
  ℕ, ◌*◌, Bool, true, false, not, ◌&&◌, ◌||◌, Option, none, some, List, [], ◌∷◌, ◌++◌,
  if◌then◌else◌, eqb, ltb_ℤ, Text, codes, nat_key, text_key, text_eq, Map, find, erase,
  assign_sorted, contains, ℤ, pos, pos_part, neg_part, ◌+◌, leb,
}
use anolis.Protocol.{Doubles, Kind, bool_value, SignalQuality, signal_ok, quality_eq}
use anolis.StateCache.{CachedSignalValue, DeviceState, StateCache, is_stale, age}
use anolis.StateCache.Publish.{get_signal_value, get_device_state}

pub data StopChainState : Type 0 where
  not_configured in_force clear unknown : StopChainState

unfoldable pub stop_chain_state_to_string : StopChainState → Text
stop_chain_state_to_string in_force = codes "in_force"
stop_chain_state_to_string clear = codes "clear"
stop_chain_state_to_string unknown = codes "unknown"
stop_chain_state_to_string not_configured = codes "not_configured"

pub data StopChainExpect : Type 0 where
  reports_estop power_loss : StopChainExpect

pub record StopChainStatus : Type 0 where
  pub status_signal : Text
  pub active : Bool

pub record StopChainConfig : Type 0 where
  pub status : Option StopChainStatus
  pub scope : List Text
  pub expectations : Map Text StopChainExpect

pub data Reading : Type 0 where
  not_read no_reading not_bool : Reading
  stale_reading : ℕ → SignalQuality → Reading
  quality_not_ok : SignalQuality → Reading
  reads : Bool → Reading

pub record StopChainSnapshot : Type 0 where
  pub state : StopChainState
  pub reading : Reading
  pub since_epoch_ms : Option ℤ

pub data Contradiction : Type 0 where
  still_answers : Text → ℕ → Contradiction
  estop_reads_false behaves_again no_longer_in_force : Contradiction

pub record StopChainMismatch : Type 0 where
  pub mismatch_device : Text
  pub expect : StopChainExpect
  pub reason : Contradiction
  pub raised_at : ℤ

pub record StopChainMonitor : Type 0 where
  pub current : StopChainSnapshot
  pub mismatches : Map Text StopChainMismatch

-- The parts before and after the last slash, of a text with a slash.
unfoldable pub around_slash : Text → Text × Text
around_slash [] = ([], [])
around_slash (x ∷ s) =
    let (device, signal) = around_slash s in
    if contains 47 s then (x ∷ device, signal) else if eqb x 47 then ([], s) else ([], x ∷ s)

-- `rfind('/')` and the two parts, each the whole text where there is no slash.
unfoldable pub split_last : Text → Text × Text
unfolding around_slash
split_last s = if contains 47 s then around_slash s else (s, s)

abbrev pub configured : StopChainConfig → Bool
configured config = elim config.status [ none ↦ false | some _ ↦ true ]

abbrev pub new_monitor : StopChainMonitor
new_monitor = record {
  current = record { state = not_configured; reading = not_read; since_epoch_ms = none };
  mismatches = [];
}

abbrev pub state_eq : StopChainState → StopChainState → Bool
state_eq not_configured not_configured = true
state_eq in_force in_force = true
state_eq clear clear = true
state_eq unknown unknown = true
state_eq _ _ = false

-- A difference of two times of at least so many milliseconds.
abbrev pub has_lasted : ℕ → ℤ → ℤ → Bool
has_lasted bound since now =
    leb (pos_part since + neg_part now + bound) (pos_part now + neg_part since)

unfoldable pub holds : StopChainMonitor → Bool
holds m = state_eq m.current.state in_force || state_eq m.current.state unknown

-- The refusal is told by the reading in it.
unfoldable pub clear_refusal : StopChainMonitor → Option Reading
clear_refusal m = elim m.current.state [
  | in_force ↦ some m.current.reading
  | unknown ↦ some m.current.reading
  | _ ↦ none
]

-- The guard that the stop chain gives to the controller, with the text of a refusal.
abbrev pub guard_of : (Reading → Text) → StopChainMonitor → Option Text
unfolding clear_refusal
guard_of text m = elim (clear_refusal m) [ none ↦ none | some r ↦ some (text r) ]

unfoldable pub in_scope : StopChainConfig → Text → Bool
unfolding contains
in_scope config handle = contains handle config.scope

module _ {D : Doubles} where
  abbrev pub is_ok : CachedSignalValue D → Bool
  is_ok v = quality_eq v.cached_quality signal_ok

  abbrev pub bool_of : Kind D → Option Bool
  bool_of (bool_value b) = some b
  bool_of _ = none

  -- What the reading of the status signal says.
  unfoldable pub judge : Bool → ℕ → ℤ → Option (CachedSignalValue D) → StopChainState × Reading
  unfolding is_stale age
  judge active stale_after now none = (unknown, no_reading)
  judge active stale_after now (some v) =
      if is_stale v stale_after now
      then (unknown, stale_reading (age v now) v.cached_quality)
      else if not (is_ok v)
      then (unknown, quality_not_ok v.cached_quality)
      else elim (bool_of v.cached_value.kind) [
        | none ↦ (unknown, not_bool)
        | some b ↦
            if (b && active) || (not b && not active) then (in_force, reads b) else (clear, reads b)
      ]

  unfoldable pub classify : StopChainConfig → StateCache D → ℕ → ℤ → StopChainState × Reading
  unfolding judge get_signal_value split_last
  classify config cache stale_after now = elim config.status [
    | none ↦ (not_configured, not_read)
    | some s ↦
        let (handle, signal) = split_last s.status_signal in
        judge s.active stale_after now (get_signal_value cache handle signal)
  ]

  -- update(): the monitor after it, and the snapshots before and after where the state changed. The
  -- clock of the cache is in nanoseconds, `now_ms` is the time of the change.
  unfoldable pub update :
      StopChainConfig
      → StateCache D
      → ℕ
      → ℤ
      → ℤ
      → StopChainMonitor
      → StopChainMonitor × Option (StopChainSnapshot × StopChainSnapshot)
  unfolding classify
  update config cache stale_after now now_ms m =
      let (state, reading) = classify config cache stale_after now in
      let same =
        state_eq state m.current.state
        && elim m.current.since_epoch_ms as (λ _. Bool) [ none ↦ false | some _ ↦ true ] in
      let after : StopChainSnapshot = record {
        state = state;
        reading = reading;
        since_epoch_ms = some now_ms;
      } in
      if not (configured config)
      then (m, none)
      else if same
      then (record m { current = record m.current { reading = reading } }, none)
      else (record m { current = after }, some (m.current, after))

  unfoldable pub first_fresh : Map Text (CachedSignalValue D) → ℕ → ℤ → Option Contradiction
  unfolding is_stale age
  first_fresh [] stale_after now = none
  first_fresh ((signal, v) ∷ signals) stale_after now =
      let rest = first_fresh signals stale_after now in
      if not (is_stale v stale_after now) then some (still_answers signal (age v now)) else rest

  abbrev is_false : Kind D → Bool
  is_false (bool_value b) = not b
  is_false _ = false

  unfoldable pub contradiction :
      StateCache D → ℕ → ℤ → Text → StopChainExpect → Option Contradiction
  unfolding first_fresh get_device_state get_signal_value is_stale
  contradiction cache stale_after now handle power_loss = elim (get_device_state cache handle) [
    | none ↦ none
    | some device ↦ first_fresh device.signals stale_after now
  ]
  contradiction cache stale_after now handle reports_estop =
      elim (get_signal_value cache handle (codes "estop")) [
        | none ↦ none
        | some v ↦
            if is_ok v && (not (is_stale v stale_after now) && is_false v.cached_value.kind)
            then some estop_reads_false
            else none
      ]

  -- The devices that contradict the stop.
  unfoldable pub found_of :
      StateCache D → ℕ → ℤ → ℤ → Map Text StopChainExpect → Map Text StopChainMismatch
  unfolding contradiction
  found_of cache stale_after now now_ms [] = []
  found_of cache stale_after now now_ms ((handle, expect) ∷ expectations) =
      let rest = found_of cache stale_after now now_ms expectations in
      elim (contradiction cache stale_after now handle expect) [
        | none ↦ rest
        | some why ↦
            (
              handle,
              record {
                mismatch_device = handle;
                expect = expect;
                reason = why;
                raised_at = now_ms;
              },
            )
            ∷ rest
      ]

  unfoldable pub found_now :
      StopChainConfig → StateCache D → ℕ → ℤ → ℤ → StopChainMonitor → Map Text StopChainMismatch
  unfolding found_of
  found_now config cache stale_after now now_ms m = elim m.current.since_epoch_ms [
    | none ↦ []
    | some since ↦
        if state_eq m.current.state in_force && has_lasted stale_after since now_ms
        then found_of cache stale_after now now_ms config.expectations
        else []
  ]

-- Those that stand and are no longer found: what stays, and the changes.
unfoldable pub resolve :
    Bool
    → ℤ
    → Map Text StopChainMismatch
    → Map Text StopChainMismatch
    → Map Text StopChainMismatch × List (StopChainMismatch × Bool)
unfolding find
resolve still_in_force now_ms found [] = ([], [])
resolve still_in_force now_ms found ((handle, mismatch) ∷ standing) =
    let (kept, changes) = resolve still_in_force now_ms found standing in
    elim (find handle found) [
      | some _ ↦ ((handle, mismatch) ∷ kept, changes)
      | none ↦ (
        kept,
        (
          record mismatch {
            reason = if still_in_force then behaves_again else no_longer_in_force;
            raised_at = now_ms;
          },
          false,
        )
            ∷ changes,
      )
    ]

unfoldable pub raise :
    Map Text StopChainMismatch
    → Map Text StopChainMismatch
    → Map Text StopChainMismatch × List (StopChainMismatch × Bool)
unfolding find assign_sorted
raise [] standing = (standing, [])
raise ((handle, mismatch) ∷ found) standing = elim (find handle standing) [
  | some old ↦ raise found (assign_sorted handle (record old { reason = mismatch.reason }) standing)
  | none ↦
      let rest = raise found (assign_sorted handle mismatch standing) in
      (rest.0, (mismatch, true) ∷ rest.1)
]

-- update_mismatches().
unfoldable pub update_mismatches :
    {D : Doubles}
    → StopChainConfig
    → StateCache D
    → ℕ
    → ℤ
    → ℤ
    → StopChainMonitor
    → StopChainMonitor × List (StopChainMismatch × Bool)
unfolding found_now resolve raise
update_mismatches config cache stale_after now now_ms m =
    let found = found_now config cache stale_after now now_ms m in
    let resolved = resolve (state_eq m.current.state in_force) now_ms found m.mismatches in
    let raised = raise found resolved.0 in
    elim config.expectations [
      | [] ↦ (m, [])
      | _ ↦
          if not (configured config)
          then (m, [])
          else (record m { mismatches = raised.0 }, resolved.1 ++ raised.1)
    ]
