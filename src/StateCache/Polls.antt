-- ===== src/StateCache/Polls.antt =====
-- The edges of a poll of all devices and of one.
use anolis.Base.{
  ◌≡◌, refl, ◌∙◌, Bool, true, false, not, Option, none, some, List, [], ◌∷◌, if◌then◌else◌, Text,
  text_key, Map, find, erase, Option-cases, Bool-cases, inl, inr,
}
use anolis.Protocol.{Doubles, ProviderState, no_provider, unavailable, available}
use anolis.StateCache.{PollConfig, Outage, StateCache, Notice}
use anolis.StateCache.Polling.{
  PollReadings, poll_device, also, mark_provider_devices_unavailable, track_outage, clear_outage,
  poll_devices, poll_provider_devices, poll_groups, poll_once, providers_of, configs_for,
  find_config, poll_device_now,
}
use anolis.StateCache.Edges.{
  watch, watch_of, watch-append, Ready, Traced, poll_device-Traced, mark_unavailable-Traced,
}

module _ {D : Doubles} where
  pub still : (c : StateCache D) (h : Text) → Ready c h → Traced h c (c, [])
  unfolding watch
  still c h r = record { edges = refl; ready = r }

  if-Traced :
      (h : Text) (c : StateCache D) (t : Bool) (x y : StateCache D × List (Notice D))
      → Traced h c x
      → Traced h c y
      → Traced h c (if t then x else y)
  if-Traced h c true x y p q = p
  if-Traced h c false x y p q = q

  pub also-Traced :
      (h : Text) (c : StateCache D) (after : StateCache D × List (Notice D))
      (step : StateCache D → StateCache D × List (Notice D))
      → Traced h c after
      → ((c' : StateCache D) → Ready c' h → Traced h c' (step c'))
      → Traced h c (also after step)
  also-Traced h c (c', ns) step t next = record {
    edges =
        watch-append h (watch_of c h) (watch_of c' h) ns (step c').1 t.edges
        ∙ (next c' t.ready).edges;
    ready = (next c' t.ready).ready;
  }

  mark_provider_devices_unavailable-Traced :
      (h : Text) (configs : List PollConfig) (b : Bool) (c : StateCache D)
      → Ready c h
      → Traced h c (mark_provider_devices_unavailable c configs b)
  unfolding mark_provider_devices_unavailable
  mark_provider_devices_unavailable-Traced h [] b c r = still c h r
  mark_provider_devices_unavailable-Traced h (config ∷ configs) b c r =
      also-Traced h c _ _
        (mark_unavailable-Traced c h config.poll_provider config.poll_device_id b r)
        (mark_provider_devices_unavailable-Traced h configs b)

  poll_devices-Traced :
      (h : Text) (configs : List PollConfig) (seen : PollReadings D) (c : StateCache D)
      → Ready c h
      → Traced h c (poll_devices c configs seen)
  unfolding poll_devices
  poll_devices-Traced h [] seen c r = still c h r
  poll_devices-Traced h (config ∷ configs) seen c r =
      also-Traced h c _ _ (poll_device-Traced c h config.poll_provider config.poll_device_id _ r)
        (poll_devices-Traced h configs seen)

  -- Logging an outage touches nothing that edges depend on.
  logged-Traced :
      (h : Text) (c : StateCache D) (log : Map Text Outage) (after : StateCache D × List (Notice D))
      → Ready c h
      → (Ready (record c { outages = log }) h → Traced h (record c { outages = log }) after)
      → Traced h c after
  logged-Traced h c log after r t =
      let traced = t record { sink = r.sink; apart = r.apart } in
      record { edges = traced.edges; ready = traced.ready }

  clear_outage_log :
      (c : StateCache D) (p : Text)
      → (log : Map Text Outage) × (clear_outage c p ≡ record c { outages = log })
  unfolding clear_outage
  clear_outage_log c p = elim (Option-cases (find p c.outages)) [
    | inl f ↦ rw (f, clear_outage) (c.outages, refl)
    | inr (o, f) ↦ elim (Bool-cases o.in_outage) [
      | inl t ↦ rw (f, clear_outage, t) (erase p c.outages, refl)
      | inr t ↦ rw (f, clear_outage, t) (c.outages, refl)
    ]
  ]

  poll_provider_devices-Traced :
      (h p : Text) (configs : List PollConfig) (seen : PollReadings D) (c : StateCache D)
      → Ready c h
      → Traced h c (poll_provider_devices c p configs seen)
  unfolding poll_provider_devices track_outage
  poll_provider_devices-Traced h p configs seen c r = go (seen.provider_of p) refl
    where
      down :
          (missing : Bool)
          → Traced h c (
              mark_provider_devices_unavailable
                (track_outage c p missing (seen.now_of p)).0
                configs
                (seen.shutting_down p))
      down missing =
          logged-Traced h c _ _ r
            (mark_provider_devices_unavailable-Traced h configs (seen.shutting_down p) _)

      up : Traced h c (poll_devices (clear_outage c p) configs seen)
      up =
          let (log, e) = clear_outage_log c p in
          rw (e) (logged-Traced h c log _ r (poll_devices-Traced h configs seen _))

      go :
          (state : ProviderState)
          → seen.provider_of p ≡ state
          → Traced h c (poll_provider_devices c p configs seen)
      go no_provider e = rw (e, poll_provider_devices) (down true)
      go unavailable e = rw (e, poll_provider_devices) (down false)
      go available e = rw (e, poll_provider_devices) up

  poll_groups-Traced :
      (h : Text) (ids : List Text) (configs : List PollConfig) (seen : PollReadings D)
      (c : StateCache D)
      → Ready c h
      → Traced h c (poll_groups c ids configs seen)
  unfolding poll_groups
  poll_groups-Traced h [] configs seen c r = still c h r
  poll_groups-Traced h (p ∷ ids) configs seen c r =
      also-Traced h c _ _ (poll_provider_devices-Traced h p (configs_for p configs) seen c r)
        (poll_groups-Traced h ids configs seen)

  pub poll_once-Traced :
      (h : Text) (seen : PollReadings D) (c : StateCache D)
      → Ready c h
      → Traced h c (poll_once c seen)
  unfolding poll_once
  poll_once-Traced h seen c r =
      if-Traced h c c.initialized _ _
        (poll_groups-Traced h (providers_of c.poll_configs) c.poll_configs seen c r) (still c h r)

  pub poll_device_now-Traced :
      (h handle : Text) (seen : PollReadings D) (c : StateCache D)
      → Ready c h
      → Traced h c (poll_device_now c handle seen)
  unfolding poll_device_now
  poll_device_now-Traced h handle seen c r =
      if-Traced h c (not c.initialized) _ _ (still c h r) (go (find_config handle c.poll_configs))
    where
      polls :
          (config : PollConfig) (state : ProviderState)
          → Traced h c (elim state [
            | available ↦
                poll_device c config.poll_provider config.poll_device_id (seen.read_of handle)
            | _ ↦ (c, [])
          ])
      polls config available = poll_device-Traced c h config.poll_provider config.poll_device_id _ r
      polls config no_provider = still c h r
      polls config unavailable = still c h r

      go :
          (found : Option PollConfig)
          → Traced h c (elim found [
            | none ↦ (c, [])
            | some config ↦ elim (seen.provider_of config.poll_provider) [
              | available ↦
                  poll_device c config.poll_provider config.poll_device_id (seen.read_of handle)
              | _ ↦ (c, [])
            ]
          ])
      go none = still c h r
      go (some config) = polls config (seen.provider_of config.poll_provider)
