-- ===== src/StateCache/Carry.antt =====
-- What a rebuild carries from the old states to the new ones, for one device.
use anolis.Base.{
  ◌≡◌, refl, Bool, true, false, not, ◌&&◌, ◌||◌, none, some, List, [], ◌∷◌, if◌then◌else◌, arith,
  Text, text_key, text_eq, text_eq_iff, ◌==◌, Map, find, assign, find-assign, find-erase, contains,
  is_empty, Bool-cases, inl, inr, ℤ,
}
use anolis.Protocol.{Doubles}
use anolis.Registry.{RegisteredDevice, get_handle}
use anolis.StateCache.{DeviceState, Carried, StateCache}
use anolis.StateCache.Edges.{lost_in, carried_lost, is_apart}
use anolis.StateCache.Rebuild.{
  is_of_provider, carried_of, kept_states, forget_provider, add_device, default_signals, prior_of,
  state_with,
}

-- The handles of a map, each once.
abbrev pub KeysDistinct : Map Text Carried → Type 0
KeysDistinct [] = Unit
KeysDistinct ((h, _) ∷ m) = (find h m ≡ none) × KeysDistinct m

assign-KeysDistinct :
    (k : Text) (v : Carried) (m : Map Text Carried) → KeysDistinct m → KeysDistinct (assign k v m)
unfolding assign find
assign-KeysDistinct k v [] d = (refl, tt)
assign-KeysDistinct k v ((j, w) ∷ m) d = elim (Bool-cases (j == k)) [
  | inl same ↦ rw (same, assign) d
  | inr other ↦
      rw (other, assign)
        (
          ground (arith, find-assign k j v m, text_key.beq_iff j k, text_key.beq_iff k j),
          assign-KeysDistinct k v m d.1,
        )
]

-- No handle stands there twice.
unfoldable pub is_distinct : List Text → Bool
is_distinct [] = true
is_distinct (h ∷ hs) = not (contains h hs) && is_distinct hs

unfoldable pub is_separate : Text → Map Text Carried → Map Text Carried → Bool
is_separate h carried gone = elim (find h carried) [
  | some _ ↦ not (carried_lost h gone)
  | none ↦ true
]

module _ {D : Doubles} where
  -- The handles of the provider's devices in an inventory that have a state.
  unfoldable pub handles_of : Text → List (RegisteredDevice D) → List Text
  handles_of p [] = []
  handles_of p (device ∷ devices) =
      let rest = handles_of p devices in
      if text_eq device.provider_id p then get_handle device ∷ rest else rest

  -- Whether the device is lost while a rebuild is under way.
  unfoldable pub lost_during :
      Text → Map Text Carried → Map Text (DeviceState D) → Map Text Carried → Bool
  lost_during h carried states gone = elim (find h states) [
    | some s ↦ s.loss_reported
    | none ↦ carried_lost h carried || carried_lost h gone
  ]

  pub carried_of-KeysDistinct :
      (p : Text) (states : Map Text (DeviceState D)) → KeysDistinct (carried_of p states)
  unfolding carried_of
  carried_of-KeysDistinct p [] = tt
  carried_of-KeysDistinct p ((h, s) ∷ states) = elim (Bool-cases (is_of_provider p h)) [
    | inl t ↦
        rw (t) (assign-KeysDistinct h _ (carried_of p states) (carried_of-KeysDistinct p states))
    | inr f ↦ rw (f) (carried_of-KeysDistinct p states)
  ]

  -- Forgetting a provider moves its states to what is carried.
  pub find-kept_states :
      (h p : Text) (states : Map Text (DeviceState D))
      → find h (kept_states p states) ≡ (if is_of_provider p h then none else find h states)
  unfolding find kept_states
  find-kept_states h p [] = ground arith
  find-kept_states h p ((k, s) ∷ states) =
      ground (arith, find-kept_states h p states, text_eq_iff k h)

  carried_lost-carried_of :
      (h p : Text) (states : Map Text (DeviceState D))
      → carried_lost h (carried_of p states) ≡ (is_of_provider p h && lost_in h states [])
  unfolding find carried_of lost_in
  carried_lost-carried_of h p [] = ground arith
  carried_lost-carried_of h p ((k, s) ∷ states) = ground (
    arith,
    carried_lost-carried_of h p states,
    text_eq_iff k h,
    find-assign k h
        (record {
          carried_available = s.provider_available;
          carried_loss = s.loss_reported;
          carried_unavailable = s.unavailable_emitted;
        })
        (carried_of p states),
  )

  pub is_separate-carried_of :
      (h p : Text) (states : Map Text (DeviceState D)) (gone : Map Text Carried)
      → is_apart h states gone ≡ true
      → is_separate h (carried_of p states) gone ≡ true
  unfolding find carried_of is_apart is_separate
  is_separate-carried_of h p [] gone a = ground arith
  is_separate-carried_of h p ((k, s) ∷ states) gone a = ground (
    arith,
    is_separate-carried_of h p states gone,
    text_eq_iff k h,
    find-assign k h
        (record {
          carried_available = s.provider_available;
          carried_loss = s.loss_reported;
          carried_unavailable = s.unavailable_emitted;
        })
        (carried_of p states),
  )

  -- Between the sections of a rebuild: what is carried and what was dropped before do not overlap,
  -- and neither do the states and what was dropped.
  pub record Midway (h : Text) (carried : Map Text Carried) (c : StateCache D) : Type 0 where
    pub separate : is_separate h carried c.departed ≡ true
    pub apart : is_apart h c.device_states c.departed ≡ true

  -- Two caches that agree on whether the device is lost.
  pub record Agrees (h : Text) (carried : Map Text Carried) (c c' : StateCache D) : Type 0 where
    pub lost :
        lost_during h carried c'.device_states c'.departed
        ≡ lost_during h carried c.device_states c.departed
    pub edge_number : c'.reachability_edge_seq ≡ c.reachability_edge_seq
    pub edge_sink : c'.has_sink ≡ c.has_sink

  pub forget_provider-lost :
      (h p : Text) (c : StateCache D)
      → is_apart h c.device_states c.departed ≡ true
      → lost_during h (carried_of p c.device_states) (forget_provider c p).device_states c.departed
        ≡ lost_in h c.device_states c.departed
  unfolding forget_provider lost_during lost_in is_apart find
  forget_provider-lost h p c a =
      ground
        (arith, find-kept_states h p c.device_states, carried_lost-carried_of h p c.device_states)

  pub forget_provider-apart :
      (h p : Text) (c : StateCache D)
      → is_apart h c.device_states c.departed ≡ true
      → is_apart h (forget_provider c p).device_states c.departed ≡ true
  unfolding forget_provider is_apart
  forget_provider-apart h p c a = ground (arith, find-kept_states h p c.device_states)

  -- The device gets a state, with what is carried of it.
  pub add_device-find :
      (h p : Text) (carried : Map Text Carried) (device : RegisteredDevice D) (now : ℤ)
      (c : StateCache D)
      → (not (text_eq device.provider_id p) || is_empty (default_signals device.signals_by_id))
        ≡ false
      → (find h (add_device c p carried device now).device_states ≡ (
          if get_handle device == h
          then some (state_with h (prior_of carried c.departed h) now)
          else find h c.device_states))
        × (find h (add_device c p carried device now).departed
            ≡ (if get_handle device == h then none else find h c.departed))
  unfolding add_device
  add_device-find h p carried device now c f =
      rw (f, add_device)
        (
          ground (
            arith,
            find-assign (get_handle device) h
                (state_with (get_handle device) (prior_of carried c.departed (get_handle device))
                  now)
                c.device_states,
            text_eq_iff (get_handle device) h,
          ),
          find-erase (get_handle device) h c.departed,
        )

  pub add_device-Agrees :
      (h p : Text) (carried : Map Text Carried) (device : RegisteredDevice D) (now : ℤ)
      (c : StateCache D)
      → ((text_eq device.provider_id p && get_handle device == h) ≡ true
          → find h c.device_states ≡ none)
      → Midway h carried c
      → Agrees h carried c (add_device c p carried device now)
        × Midway h carried (add_device c p carried device now)
  unfolding add_device lost_during is_separate is_apart
  add_device-Agrees h p carried device now c fresh m =
      elim (Bool-cases
        (not (text_eq device.provider_id p) || is_empty (default_signals device.signals_by_id))) [
          | inl t ↦
              rw (t, add_device) (record { lost = refl; edge_number = refl; edge_sink = refl }, m)
          | inr f ↦ added f
        ]
    where
      added :
          (not (text_eq device.provider_id p) || is_empty (default_signals device.signals_by_id))
            ≡ false
          → Agrees h carried c (add_device c p carried device now)
            × Midway h carried (add_device c p carried device now)
      added f =
          let found = add_device-find h p carried device now c f in
          (
            record {
              lost = ground (arith, found.0, found.1, fresh, m.separate);
              edge_number = rw (f, add_device) refl;
              edge_sink = rw (f, add_device) refl;
            },
            record {
              separate = ground (arith, found.1, m.separate);
              apart = ground (arith, found.0, found.1, m.apart);
            },
          )
