-- ===== src/StateCache/Polling.antt =====
-- Reading devices: poll_device with the two sections that it ends in, poll_once and poll_device_now.
use anolis.Base.{
  ℕ, ◌-◌, ◌*◌, Bool, true, false, not, ◌&&◌, ◌||◌, Option, none, some, List, [], ◌∷◌, ◌++◌,
  if◌then◌else◌, leb, eqb, Text, text_key, text_eq, find, assign, erase, contains, keep, map, ℤ,
}
use anolis.Protocol.{
  StatusCode, code_ok, Doubles, ProviderState, no_provider, unavailable, available,
}
use anolis.LossLatch.{Edge}
use anolis.Registry.{join_handle}
use anolis.StateCache.{
  DeviceState, PollConfig, Outage, StateCache, Notice, availability, updated, reachability,
  SignalReading, update_signals, emitted, next_seq, when,
}

-- What one read of a device gives: the failure's status with whether a shutdown is under way and
-- whether the provider is lost, as read after it; or the values with the time of the poll.
pub data ReadResult (D : Doubles) : Type 0 where
  read_failed : StatusCode → Bool → Bool → ReadResult D
  read_ok : ℤ → List (SignalReading D) → ReadResult D

-- What a poll reads of the providers and of the steady clock.
pub record PollReadings (D : Doubles) : Type 0 where
  pub provider_of : Text → ProviderState
  pub shutting_down : Text → Bool
  pub read_of : Text → ReadResult D
  pub now_of : Text → ℕ

abbrev pub outage_log_interval : ℕ
outage_log_interval = 30 * 1000000000

abbrev pub loss_edge : Text → StatusCode → ℕ → Edge
loss_edge handle status seq = record {
  device_handle = handle;
  is_return = false;
  last_status = status;
  edge_seq = seq;
}

abbrev pub return_edge : Text → ℕ → Edge
return_edge handle seq = record {
  device_handle = handle;
  is_return = true;
  last_status = code_ok;
  edge_seq = seq;
}

-- The providers of the configurations, each once.
unfoldable pub providers_of : List PollConfig → List Text
unfolding contains
providers_of [] = []
providers_of (config ∷ configs) =
    let rest = providers_of configs in
    if contains config.poll_provider rest then rest else config.poll_provider ∷ rest

abbrev pub configs_for : Text → List PollConfig → List PollConfig
configs_for provider_id = keep (λ config. text_eq config.poll_provider provider_id)

unfoldable pub find_config : Text → List PollConfig → Option PollConfig
find_config handle [] = none
find_config handle (config ∷ configs) =
    if text_eq (join_handle config.poll_provider config.poll_device_id) handle
    then some config
    else find_config handle configs

module _ {D : Doubles} where
  -- Whether a failed read of a device in this state is a loss to report to the sink.
  abbrev pub is_new_loss : StateCache D → DeviceState D → Bool → Bool → Bool
  is_new_loss c s shutting_down provider_lost =
      not shutting_down && not provider_lost && not s.loss_reported && c.has_sink

  abbrev pub is_new_outage : DeviceState D → Bool → Bool
  is_new_outage s shutting_down = not shutting_down && not s.unavailable_emitted

  -- The section after a failed read, and the sink's call after it.
  unfoldable pub fail_read :
      StateCache D → Text → Text → StatusCode → Bool → Bool → StateCache D × List (Notice D)
  unfolding find assign
  fail_read c provider_id device_id status shutting_down provider_lost =
      let handle = join_handle provider_id device_id in
      elim (find handle c.device_states) [
        | none ↦ (c, [])
        | some s ↦
            let out = is_new_outage s shutting_down in
            let lost = is_new_loss c s shutting_down provider_lost in
            let seq = next_seq c.reachability_edge_seq in
            (
              record c {
                device_states =
                    assign handle
                      (record s {
                        provider_available = false;
                        signals = [];
                        unavailable_emitted = s.unavailable_emitted || out;
                        loss_reported = s.loss_reported || lost;
                      })
                      c.device_states;
                reachability_edge_seq = if lost then seq else c.reachability_edge_seq;
              },
              emitted c (when out (availability provider_id device_id false))
                  ++ when lost (reachability (loss_edge handle status seq)),
            )
      ]

  -- update_device_state: the section after a good read, the updates emitted after it, and the sink.
  unfoldable pub update_device_state :
      StateCache D → Text → Text → ℤ → List (SignalReading D) → StateCache D × List (Notice D)
  unfolding find assign update_signals
  update_device_state c provider_id device_id now values =
      let handle = join_handle provider_id device_id in
      elim (find handle c.device_states) [
        | none ↦ (c, [])
        | some s ↦
            let seq = next_seq c.reachability_edge_seq in
            let (signals', pending) = update_signals s.signals values in
            (
              record c {
                device_states =
                    assign handle
                      (record s {
                        last_poll_time = now;
                        provider_available = true;
                        unavailable_emitted = false;
                        loss_reported = false;
                        signals = signals';
                      })
                      c.device_states;
                reachability_edge_seq = if s.loss_reported then seq else c.reachability_edge_seq;
              },
              emitted c (when s.unavailable_emitted (availability provider_id device_id true))
                  ++ (emitted c (
                        map
                          (λ r.
                            updated provider_id device_id r.read_signal r.read_value r.read_quality)
                          pending)
                      ++ when (s.loss_reported && c.has_sink)
                          (reachability (return_edge handle seq))),
            )
      ]

  unfoldable pub poll_device :
      StateCache D → Text → Text → ReadResult D → StateCache D × List (Notice D)
  unfolding fail_read update_device_state
  poll_device c provider_id device_id (read_failed status shutting_down provider_lost) =
      fail_read c provider_id device_id status shutting_down provider_lost
  poll_device c provider_id device_id (read_ok now values) =
      update_device_state c provider_id device_id now values

  -- One device of mark_provider_devices_unavailable.
  unfoldable pub mark_unavailable :
      StateCache D → Text → Text → Bool → StateCache D × List (Notice D)
  unfolding find assign
  mark_unavailable c provider_id device_id shutting_down =
      let handle = join_handle provider_id device_id in
      elim (find handle c.device_states) [
        | none ↦ (c, [])
        | some s ↦
            let out = is_new_outage s shutting_down in
            (
              record c {
                device_states =
                    assign handle
                      (record s {
                        provider_available = false;
                        unavailable_emitted = s.unavailable_emitted || out;
                      })
                      c.device_states;
              },
              emitted c (when out (availability provider_id device_id false)),
            )
      ]

  -- One step after another, the notices in order.
  abbrev pub also :
      StateCache D × List (Notice D)
      → (StateCache D → StateCache D × List (Notice D))
      → StateCache D × List (Notice D)
  also (c, notices) step = ((step c).0, notices ++ (step c).1)

  unfoldable pub mark_provider_devices_unavailable :
      StateCache D → List PollConfig → Bool → StateCache D × List (Notice D)
  unfolding mark_unavailable
  mark_provider_devices_unavailable c [] shutting_down = (c, [])
  mark_provider_devices_unavailable c (config ∷ configs) shutting_down =
      also (mark_unavailable c config.poll_provider config.poll_device_id shutting_down)
        (λ c'. mark_provider_devices_unavailable c' configs shutting_down)

  -- `provider_outage_log_state_[provider_id]` reads a missing entry as the default one.
  abbrev pub outage_of : StateCache D → Text → Outage
  outage_of c provider_id = elim (find provider_id c.outages) [
    | none ↦ record { in_outage = false; provider_missing = false; last_log_time = 0 }
    | some o ↦ o
  ]

  -- Whether a warning is logged.
  unfoldable pub track_outage : StateCache D → Text → Bool → ℕ → StateCache D × Bool
  unfolding assign find
  track_outage c provider_id missing now =
      let o = outage_of c provider_id in
      let transitioned =
        not o.in_outage
        || (o.provider_missing && not missing)
        || (not o.provider_missing && missing) in
      let should_log =
        transitioned || eqb o.last_log_time 0 || leb outage_log_interval (now - o.last_log_time) in
      (
        record c {
          outages =
              assign provider_id
                (record {
                  in_outage = true;
                  provider_missing = missing;
                  last_log_time = if should_log then now else o.last_log_time;
                })
                c.outages;
        },
        should_log,
      )

  unfoldable pub clear_outage : StateCache D → Text → StateCache D
  unfolding find erase
  clear_outage c provider_id = elim (find provider_id c.outages) [
    | none ↦ c
    | some o ↦ if o.in_outage then record c { outages = erase provider_id c.outages } else c
  ]

  unfoldable pub poll_devices :
      StateCache D → List PollConfig → PollReadings D → StateCache D × List (Notice D)
  unfolding poll_device
  poll_devices c [] seen = (c, [])
  poll_devices c (config ∷ configs) seen =
      also
        (poll_device c config.poll_provider config.poll_device_id
          (seen.read_of (join_handle config.poll_provider config.poll_device_id)))
        (λ c'. poll_devices c' configs seen)

  unfoldable pub poll_provider_devices :
      StateCache D → Text → List PollConfig → PollReadings D → StateCache D × List (Notice D)
  unfolding track_outage mark_provider_devices_unavailable clear_outage poll_devices
  poll_provider_devices c provider_id configs seen = elim (seen.provider_of provider_id) [
    | no_provider ↦
        mark_provider_devices_unavailable
          (track_outage c provider_id true (seen.now_of provider_id)).0 configs
          (seen.shutting_down provider_id)
    | unavailable ↦
        mark_provider_devices_unavailable
          (track_outage c provider_id false (seen.now_of provider_id)).0 configs
          (seen.shutting_down provider_id)
    | available ↦ poll_devices (clear_outage c provider_id) configs seen
  ]

  unfoldable pub poll_groups :
      StateCache D → List Text → List PollConfig → PollReadings D → StateCache D × List (Notice D)
  unfolding poll_provider_devices
  poll_groups c [] configs seen = (c, [])
  poll_groups c (provider_id ∷ ids) configs seen =
      also (poll_provider_devices c provider_id (configs_for provider_id configs) seen)
        (λ c'. poll_groups c' ids configs seen)

  unfoldable pub poll_once : StateCache D → PollReadings D → StateCache D × List (Notice D)
  unfolding poll_groups providers_of
  poll_once c seen =
      if c.initialized
      then poll_groups c (providers_of c.poll_configs) c.poll_configs seen
      else (c, [])

  unfoldable pub poll_device_now :
      StateCache D → Text → PollReadings D → StateCache D × List (Notice D)
  unfolding find_config poll_device
  poll_device_now c handle seen =
      if not c.initialized then (c, []) else elim (find_config handle c.poll_configs) [
        | none ↦ (c, [])
        | some config ↦ elim (seen.provider_of config.poll_provider) [
          | available ↦
              poll_device c config.poll_provider config.poll_device_id (seen.read_of handle)
          | _ ↦ (c, [])
        ]
      ]
