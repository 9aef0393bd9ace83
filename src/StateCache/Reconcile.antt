-- ===== src/StateCache/Reconcile.antt =====
-- A rebuild keeps what the cache says of a device's reachability.
use anolis.Base.{
  ℕ, ◌≡◌, refl, ◌∙◌, Bool, true, not, ◌||◌, Option, none, some, List, [], ◌∷◌, ◌++◌, if◌then◌else◌,
  arith, Text, text_key, text_eq, text_eq_iff, Map, find, assign, find-assign, contains,
  starts_with, is_empty, Option-cases, Bool-cases, inl, inr, ℤ,
}
use anolis.Protocol.{Doubles}
use anolis.Registry.{RegisteredDevice, get_handle, join_handle}
use anolis.StateCache.{Carried, StateCache, Notice}
use anolis.StateCache.Edges.{Watch, watch, watch_of, lost_in, is_apart, Ready, Traced}
use anolis.StateCache.Carry.{
  KeysDistinct, handles_of, is_distinct, lost_during, Midway, Agrees, add_device-Agrees,
  add_device-find, forget_provider-lost, forget_provider-apart, is_separate-carried_of,
  carried_of-KeysDistinct, find-kept_states,
}
use anolis.StateCache.Rebuild.{
  is_of_provider, carried_of, forget_provider, add_device, add_devices, report_removed,
  rebuild_poll_configs, default_signals,
}

starts_with-append : (s t : Text) (x : ℕ) → starts_with (s ++ x ∷ t) (s ++ x ∷ []) ≡ true
unfolding starts_with
starts_with-append [] [] x = ground arith
starts_with-append [] (y ∷ t) x = ground arith
starts_with-append (y ∷ s) t x = ground (arith, starts_with-append s t x)

is_of_provider-join_handle : (p d : Text) → is_of_provider p (join_handle p d) ≡ true
unfolding is_of_provider
is_of_provider-join_handle p d = starts_with-append p d 47

abbrev watched : ℕ → Bool → Option Watch
watched n b = some (record { last_seq = n; is_lost = b })

same_watch : {n m : ℕ} {b c : Bool} → n ≡ m → b ≡ c → watched m c ≡ watched n b
same_watch e f = rw (e, f) refl

module _ {D : Doubles} where
  add_devices-Agrees :
      (h p : Text) (carried : Map Text Carried) (devices : List (RegisteredDevice D)) (now : ℤ)
      (c : StateCache D)
      → is_distinct (handles_of p devices) ≡ true
      → (contains h (handles_of p devices) ≡ true → find h c.device_states ≡ none)
      → Midway h carried c
      → Agrees h carried c (add_devices c p carried devices now)
        × Midway h carried (add_devices c p carried devices now)
  unfolding add_devices handles_of is_distinct contains
  add_devices-Agrees h p carried [] now c d fresh m =
      (record { lost = refl; edge_number = refl; edge_sink = refl }, m)
  add_devices-Agrees h p carried (device ∷ devices) now c d fresh m =
      let c' = add_device c p carried device now in
      let first = add_device-Agrees h p carried device now c (λ e. fresh (ground (arith, e))) m in
      let rest = add_devices-Agrees h p carried devices now c' (ground arith) still_fresh first.1 in
      (
        record {
          lost = rest.0.lost ∙ first.0.lost;
          edge_number = rest.0.edge_number ∙ first.0.edge_number;
          edge_sink = rest.0.edge_sink ∙ first.0.edge_sink;
        },
        rest.1,
      )
    where
      still_fresh :
          contains h (handles_of p devices) ≡ true
          → find h (add_device c p carried device now).device_states ≡ none
      still_fresh e =
          elim (Bool-cases (
            not (text_eq device.provider_id p)
            || is_empty (default_signals device.signals_by_id))) [
              | inl t ↦ rw (t, add_device) (fresh (ground (arith, e)))
              | inr f ↦ ground (
                arith,
                add_device-find h p carried device now c f,
                text_eq_iff (get_handle device) h,
              )
            ]

  record Reported (h : Text) (carried : Map Text Carried) (c : StateCache D)
      (after : StateCache D × List (Notice D)) : Type 0 where
    lost :
        lost_in h after.0.device_states after.0.departed
        ≡ lost_during h carried c.device_states c.departed
    apart : is_apart h after.0.device_states after.0.departed ≡ true
    edge_number : after.0.reachability_edge_seq ≡ c.reachability_edge_seq
    edge_sink : after.0.has_sink ≡ c.has_sink
    no_edges : (w : Watch) → watch h w after.1 ≡ some w

  report_removed-Reported :
      (h p : Text) (carried : Map Text Carried) (c : StateCache D)
      → KeysDistinct carried
      → is_apart h c.device_states c.departed ≡ true
      → Reported h carried c (report_removed c p carried)
  unfolding report_removed watch lost_in lost_during is_apart find
  report_removed-Reported h p [] c d a = record {
    lost = ground arith;
    apart = a;
    edge_number = refl;
    edge_sink = refl;
    no_edges = λ w. refl;
  }
  report_removed-Reported h p ((k, prior) ∷ carried) c d a =
      elim (Option-cases (find k c.device_states)) [
        | inr (s, f) ↦
            rw (f, report_removed)
              let rest = report_removed-Reported h p carried c d.1 a in
                record {
                  lost = ground (arith, rest.lost, text_eq_iff k h);
                  apart = rest.apart;
                  edge_number = rest.edge_number;
                  edge_sink = rest.edge_sink;
                  no_edges = rest.no_edges;
                }
        | inl f ↦
            rw (f, report_removed)
              let gone = if prior.carried_loss then assign k prior c.departed else c.departed in
                let rest =
                  report_removed-Reported h p carried (record c { departed = gone }) d.1
                    (ground (arith, find-assign k h prior c.departed, text_eq_iff k h)) in
                record {
                  lost =
                      ground
                        (arith, rest.lost, text_eq_iff k h, find-assign k h prior c.departed, d.0);
                  apart = rest.apart;
                  edge_number = rest.edge_number;
                  edge_sink = rest.edge_sink;
                  no_edges = λ w. ground (arith, rest.no_edges w);
                }
      ]

  is_of_provider-handles_of :
      (h p : Text) (devices : List (RegisteredDevice D))
      → contains h (handles_of p devices) ≡ true
      → is_of_provider p h ≡ true
  unfolding handles_of contains
  is_of_provider-handles_of h p [] e = absurd (ground arith)
  is_of_provider-handles_of h p (device ∷ devices) e = ground (
    arith,
    is_of_provider-handles_of h p devices,
    is_of_provider-join_handle p device.device_id,
    text_eq_iff (get_handle device) h,
    text_eq_iff device.provider_id p,
  )

  pub rebuild_poll_configs-Traced :
      (c : StateCache D) (h p : Text) (devices : List (RegisteredDevice D)) (now : ℤ)
      → is_distinct (handles_of p devices) ≡ true
      → Ready c h
      → Traced h c (rebuild_poll_configs c p devices now)
  unfolding rebuild_poll_configs forget_provider
  rebuild_poll_configs-Traced c h p devices now d r =
      let carried = carried_of p c.device_states in
      let added =
        add_devices-Agrees h p carried devices now (forget_provider c p) d
          (λ e.
            ground (
              arith,
              is_of_provider-handles_of h p devices e,
              find-kept_states h p c.device_states,
            ))
          record {
            separate = is_separate-carried_of h p c.device_states c.departed r.apart;
            apart = forget_provider-apart h p c r.apart;
          } in
      let told =
        report_removed-Reported h p carried
          (add_devices (forget_provider c p) p carried devices now)
          (carried_of-KeysDistinct p c.device_states) added.1.apart in
      record {
        edges =
            told.no_edges (watch_of c h)
            ∙ same_watch (told.edge_number ∙ added.0.edge_number)
                (told.lost ∙ (added.0.lost ∙ forget_provider-lost h p c r.apart));
        ready = record { sink = told.edge_sink ∙ (added.0.edge_sink ∙ r.sink); apart = told.apart };
      }
