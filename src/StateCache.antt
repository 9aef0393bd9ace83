-- ===== src/StateCache.antt =====
-- core/state/state_cache.{hpp,cpp}: the cached readings of the devices, the outages of their
-- providers, and the edges and events that follow from both. A function here is one critical section
-- of the cache's lock or a chain of them; what a section emits, and what is called after it, is its
-- list of notices, in order. System time is in nanoseconds from the epoch and may be negative; the
-- steady clock is in nanoseconds, and 0 is the unset time point.
pub mod Polling
pub mod Rebuild
pub mod Edges
pub mod Carry
pub mod Reconcile
pub mod Polls
pub mod History
pub mod Latching
pub mod Publish
pub mod Told
use anolis.Base.{
  ℕ, suc, ◌+◌, ◌-◌, ◌*◌, ◌/◌, ◌%◌, ◌^◌, Bool, true, false, not, ◌&&◌, ◌||◌, Option, none, some,
  List, [], ◌∷◌, ◌++◌, if◌then◌else◌, ltb, leb, eqb, Text, text_key, text_eq, Map, find, assign, ℤ,
  pos_part, neg_part, ltb_ℤ, sub_ℕ, is_empty,
}
use anolis.Protocol.{
  StatusCode, code_ok, Doubles, Value, ValueType, type_bool, type_int64, type_uint64, type_double,
  type_string, type_bytes, type_other, type_eq, get_bool, get_int64, get_uint64, get_double,
  get_string, get_bytes, SignalQuality, signal_ok, signal_stale, signal_fault, signal_unknown,
  quality_eq,
}
use anolis.LossLatch.{Edge}

pub record CachedSignalValue (D : Doubles) : Type 0 where
  pub cached_value : Value D
  pub cached_at : ℤ
  pub cached_quality : SignalQuality

pub record DeviceState (D : Doubles) : Type 0 where
  pub state_handle : Text
  pub signals : Map Text (CachedSignalValue D)
  pub last_poll_time : ℤ
  pub provider_available : Bool
  pub loss_reported : Bool
  pub unavailable_emitted : Bool

-- CarriedReachability.
pub record Carried : Type 0 where
  pub carried_available : Bool
  pub carried_loss : Bool
  pub carried_unavailable : Bool

pub record PollConfig : Type 0 where
  pub poll_provider : Text
  pub poll_device_id : Text
  pub signal_ids : List Text

-- ProviderOutageLogState.
pub record Outage : Type 0 where
  pub in_outage : Bool
  pub provider_missing : Bool
  pub last_log_time : ℕ

pub record StateCache (D : Doubles) : Type 0 where
  pub has_emitter : Bool
  pub has_sink : Bool
  pub initialized : Bool
  pub poll_configs : List PollConfig
  pub device_states : Map Text (DeviceState D)
  pub reachability_edge_seq : ℕ
  pub departed : Map Text Carried
  pub outages : Map Text Outage

-- An event for the emitter, or a call of the reachability sink.
pub data Notice (D : Doubles) : Type 0 where
  availability : Text → Text → Bool → Notice D
  removed : Text → Text → Notice D
  updated : Text → Text → Text → Value D → SignalQuality → Notice D
  reachability : Edge → Notice D

-- One value of a ReadSignalsResponse, with the reading of the clock that is taken for it when it has
-- no timestamp of its own.
pub record SignalReading (D : Doubles) : Type 0 where
  pub read_signal : Text
  pub read_value : Value D
  pub read_quality : SignalQuality
  pub timestamp : Option (ℤ × ℤ)
  pub clock : ℤ

-- seconds and nanoseconds as nanoseconds.
unfoldable pub proto_time : ℤ → ℤ → ℤ
proto_time seconds nanos =
    sub_ℕ (pos_part seconds * 1000000000 + pos_part nanos)
      (neg_part seconds * 1000000000 + neg_part nanos)

unfoldable pub cached_time : Option (ℤ × ℤ) → ℤ → ℤ
unfolding proto_time
cached_time none clock = clock
cached_time (some (seconds, nanos)) clock = proto_time seconds nanos

abbrev pub quality_changed : SignalQuality → SignalQuality → Bool
quality_changed old new = not (quality_eq old new)

abbrev pub next_seq : ℕ → ℕ
next_seq n = suc n % 2 ^ 64

module _ {D : Doubles} where
  open D use {double_bits}

  -- Milliseconds.
  unfoldable pub age : CachedSignalValue D → ℤ → ℕ
  age v now =
      if ltb_ℤ now v.cached_at
      then 0
      else (pos_part now + neg_part v.cached_at - (pos_part v.cached_at + neg_part now)) / 1000000

  unfoldable pub is_stale : CachedSignalValue D → ℕ → ℤ → Bool
  unfolding age
  is_stale v timeout now =
      quality_eq v.cached_quality signal_stale
      || quality_eq v.cached_quality signal_fault
      || quality_eq v.cached_quality signal_unknown
      || ltb timeout (age v now)

  -- The comparison by the members that the declared type reads; doubles by their bits.
  unfoldable pub same_member : ValueType → Value D → Value D → Bool
  same_member type_double old new =
      eqb (double_bits (get_double old.kind)) (double_bits (get_double new.kind))
  same_member type_int64 old new =
      not (ltb_ℤ (get_int64 old.kind) (get_int64 new.kind))
      && not (ltb_ℤ (get_int64 new.kind) (get_int64 old.kind))
  same_member type_uint64 old new = eqb (get_uint64 old.kind) (get_uint64 new.kind)
  same_member type_bool old new =
      (get_bool old.kind && get_bool new.kind)
      || (not (get_bool old.kind) && not (get_bool new.kind))
  same_member type_string old new = text_eq (get_string old.kind) (get_string new.kind)
  same_member type_bytes old new = text_eq (get_bytes old.kind) (get_bytes new.kind)
  same_member (type_other _) old new = false

  unfoldable pub value_changed : Value D → Value D → Bool
  unfolding same_member
  value_changed old new =
      not (type_eq old.value_type new.value_type) || not (same_member old.value_type old new)

  -- Whether a reading differs from what is cached of its signal.
  unfoldable pub is_change : Option (CachedSignalValue D) → SignalReading D → Bool
  unfolding value_changed
  is_change none r = true
  is_change (some old) r =
      value_changed old.cached_value r.read_value
      || quality_changed old.cached_quality r.read_quality

  abbrev pub cached_of : SignalReading D → CachedSignalValue D
  unfolding cached_time
  cached_of r = record {
    cached_value = r.read_value;
    cached_at = cached_time r.timestamp r.clock;
    cached_quality = r.read_quality;
  }

  -- The loop over a response: the signals after it, and the readings that changed something.
  unfoldable pub update_signals :
      Map Text (CachedSignalValue D)
      → List (SignalReading D)
      → Map Text (CachedSignalValue D) × List (SignalReading D)
  unfolding is_change find assign cached_of cached_time
  update_signals signals [] = (signals, [])
  update_signals signals (r ∷ rs) =
      let (signals', pending) = update_signals (assign r.read_signal (cached_of r) signals) rs in
      (signals', if is_change (find r.read_signal signals) r then r ∷ pending else pending)

  -- What is emitted when there is an emitter.
  abbrev pub emitted : StateCache D → List (Notice D) → List (Notice D)
  emitted c notices = if c.has_emitter then notices else []

  abbrev pub when : Bool → Notice D → List (Notice D)
  when test notice = if test then notice ∷ [] else []
