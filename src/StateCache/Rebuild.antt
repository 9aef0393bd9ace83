-- ===== src/StateCache/Rebuild.antt =====
-- initialize and rebuild_poll_configs. A rebuild is the chain of its sections; the readings of the
-- clock that it makes for new states are one value.
use anolis.Base.{
  Bool, true, false, not, ◌||◌, none, some, List, [], ◌∷◌, ◌++◌, if◌then◌else◌, Text, codes,
  text_key, text_eq, Map, find, assign, erase, keep, starts_with, is_empty, drop, length, ℤ,
}
use anolis.Protocol.{Doubles}
use anolis.Registry.{RegisteredDevice, SignalSpec, get_handle}
use anolis.StateCache.{DeviceState, Carried, PollConfig, StateCache, Notice, removed, emitted}

abbrev pub default_carried : Carried
default_carried = record {
  carried_available = true;
  carried_loss = false;
  carried_unavailable = false;
}

-- `handle.substr(provider_id.size() + 1)`.
abbrev pub after_prefix : Text → Text → Text
after_prefix prefix handle = drop (length prefix) handle

-- The handles of a provider begin with "provider_id/".
unfoldable pub is_of_provider : Text → Text → Bool
unfolding starts_with
is_of_provider provider_id handle = starts_with handle (provider_id ++ codes "/")

-- This rebuild's old state first, else the record of an earlier rebuild.
abbrev pub prior_of : Map Text Carried → Map Text Carried → Text → Carried
prior_of carried departed handle = elim (find handle carried) [
  | some prior ↦ prior
  | none ↦ elim (find handle departed) [ some gone ↦ gone | none ↦ default_carried ]
]

module _ {D : Doubles} where
  unfoldable pub default_signals : Map Text (SignalSpec D) → List Text
  default_signals [] = []
  default_signals ((signal_id, spec) ∷ signals) =
      let rest = default_signals signals in if spec.is_default then signal_id ∷ rest else rest

  abbrev pub config_of : RegisteredDevice D → PollConfig
  unfolding default_signals
  config_of device = record {
    poll_provider = device.provider_id;
    poll_device_id = device.device_id;
    signal_ids = default_signals device.signals_by_id;
  }

  abbrev pub state_with : Text → Carried → ℤ → DeviceState D
  state_with handle prior now = record {
    state_handle = handle;
    signals = [];
    last_poll_time = now;
    provider_available = prior.carried_available;
    loss_reported = prior.carried_loss;
    unavailable_emitted = prior.carried_unavailable;
  }

  unfoldable pub initial_configs : List (RegisteredDevice D) → List PollConfig
  unfolding config_of default_signals
  initial_configs [] = []
  initial_configs (device ∷ devices) =
      let rest = initial_configs devices in
      if is_empty (default_signals device.signals_by_id) then rest else config_of device ∷ rest

  unfoldable pub initial_states :
      List (RegisteredDevice D) → ℤ → Map Text (DeviceState D) → Map Text (DeviceState D)
  unfolding default_signals assign
  initial_states [] now states = states
  initial_states (device ∷ devices) now states = initial_states devices now (
      if is_empty (default_signals device.signals_by_id)
      then states
      else assign (get_handle device) (state_with (get_handle device) default_carried now) states)

  unfoldable pub initialize : StateCache D → List (RegisteredDevice D) → ℤ → StateCache D
  unfolding initial_configs initial_states
  initialize c devices now = record c {
    initialized = true;
    poll_configs = initial_configs devices;
    device_states = initial_states devices now [];
    outages = [];
  }

  -- The two sections before the registry is read: the configurations and states that go, and the
  -- reachability that is carried.
  unfoldable pub carried_of : Text → Map Text (DeviceState D) → Map Text Carried
  unfolding is_of_provider assign
  carried_of provider_id [] = []
  carried_of provider_id ((handle, s) ∷ states) =
      let rest = carried_of provider_id states in
      if is_of_provider provider_id handle
      then assign handle
          (record {
            carried_available = s.provider_available;
            carried_loss = s.loss_reported;
            carried_unavailable = s.unavailable_emitted;
          })
          rest
      else rest

  unfoldable pub kept_states : Text → Map Text (DeviceState D) → Map Text (DeviceState D)
  unfolding is_of_provider
  kept_states provider_id [] = []
  kept_states provider_id ((handle, s) ∷ states) =
      let rest = kept_states provider_id states in
      if is_of_provider provider_id handle then rest else (handle, s) ∷ rest

  unfoldable pub forget_provider : StateCache D → Text → StateCache D
  unfolding kept_states erase
  forget_provider c provider_id = record c {
    poll_configs = keep (λ config. not (text_eq config.poll_provider provider_id)) c.poll_configs;
    device_states = kept_states provider_id c.device_states;
    outages = erase provider_id c.outages;
  }

  -- One device of the loop over the registry.
  unfoldable pub add_device :
      StateCache D → Text → Map Text Carried → RegisteredDevice D → ℤ → StateCache D
  unfolding config_of default_signals find erase assign
  add_device c provider_id carried device now =
      if not (text_eq device.provider_id provider_id)
        || is_empty (default_signals device.signals_by_id)
      then c
      else record c {
        poll_configs = c.poll_configs ++ config_of device ∷ [];
        departed = erase (get_handle device) c.departed;
        device_states =
            assign (get_handle device)
              (state_with (get_handle device) (prior_of carried c.departed (get_handle device)) now)
              c.device_states;
      }

  unfoldable pub add_devices :
      StateCache D → Text → Map Text Carried → List (RegisteredDevice D) → ℤ → StateCache D
  unfolding add_device
  add_devices c provider_id carried [] now = c
  add_devices c provider_id carried (device ∷ devices) now =
      add_devices (add_device c provider_id carried device now) provider_id carried devices now

  -- The last section: what the new inventory dropped.
  unfoldable pub report_removed :
      StateCache D → Text → Map Text Carried → StateCache D × List (Notice D)
  unfolding find assign
  report_removed c provider_id [] = (c, [])
  report_removed c provider_id ((handle, prior) ∷ carried) = elim (find handle c.device_states) [
    | some _ ↦ report_removed c provider_id carried
    | none ↦
        let rest =
          report_removed
            (record c {
              departed = if prior.carried_loss then assign handle prior c.departed else c.departed;
            })
            provider_id carried in
        (
          rest.0,
          emitted c (removed provider_id (after_prefix (provider_id ++ codes "/") handle) ∷ [])
              ++ rest.1,
        )
  ]

  unfoldable pub rebuild_poll_configs :
      StateCache D → Text → List (RegisteredDevice D) → ℤ → StateCache D × List (Notice D)
  unfolding carried_of forget_provider add_devices report_removed
  rebuild_poll_configs c provider_id devices now =
      let carried = carried_of provider_id c.device_states in
      report_removed (add_devices (forget_provider c provider_id) provider_id carried devices now)
        provider_id carried
