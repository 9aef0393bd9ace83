-- ===== src/StateCache/Edges.antt =====
-- The reachability edges that a cache sends, watched for one device.
use anolis.Base.{
  ℕ, ℤ, ◌≡◌, refl, ◌∙◌, Bool, true, false, not, ◌&&◌, ◌||◌, Option, none, some, List, [], ◌∷◌, ◌++◌,
  if◌then◌else◌, eqb, arith, Text, text_key, ◌==◌, text_eq_iff, Map, find, assign, find-assign, map,
  Option-cases, Bool-cases, inl, inr,
}
use anolis.Protocol.{StatusCode, Doubles}
use anolis.Registry.{join_handle}
use anolis.StateCache.{
  DeviceState, Carried, StateCache, Notice, availability, removed, updated, reachability,
  SignalReading, next_seq, emitted, when, update_signals,
}
use anolis.StateCache.Polling.{
  ReadResult, read_failed, read_ok, fail_read, update_device_state, poll_device, mark_unavailable,
}

-- The number of the last edge, and whether the last edge of the device was a loss.
pub record Watch : Type 0 where
  pub last_seq : ℕ
  pub is_lost : Bool

abbrev pub is_in_turn : Text → Watch → Text → Bool → ℕ → Bool
is_in_turn h w handle is_return seq =
    eqb seq (next_seq w.last_seq)
    && (not (handle == h) || (w.is_lost && is_return) || (not w.is_lost && not is_return))

abbrev pub carried_lost : Text → Map Text Carried → Bool
carried_lost h m = elim (find h m) [ none ↦ false | some prior ↦ prior.carried_loss ]

module _ {D : Doubles} where
  -- Every edge has the number after that of the edge before it, and those of the device are a loss
  -- and a return in turn; `none` where they are not.
  unfoldable pub watch : Text → Watch → List (Notice D) → Option Watch
  watch h w [] = some w
  watch h w (reachability e ∷ ns) =
      let rest =
        watch h
          (record {
            last_seq = e.edge_seq;
            is_lost = if e.device_handle == h then not e.is_return else w.is_lost;
          })
          ns in
      if is_in_turn h w e.device_handle e.is_return e.edge_seq then rest else none
  watch h w (_ ∷ ns) = watch h w ns

  -- Whether the cache holds the device for lost: by its state, or by what it kept of one dropped.
  unfoldable pub lost_in : Text → Map Text (DeviceState D) → Map Text Carried → Bool
  lost_in h states gone = elim (find h states) [
    | some s ↦ s.loss_reported
    | none ↦ carried_lost h gone
  ]

  abbrev pub watch_of : StateCache D → Text → Watch
  watch_of c h = record {
    last_seq = c.reachability_edge_seq;
    is_lost = lost_in h c.device_states c.departed;
  }

  -- A device with a state is not also remembered as dropped while lost.
  unfoldable pub is_apart : Text → Map Text (DeviceState D) → Map Text Carried → Bool
  is_apart h states gone = elim (find h states) [ some _ ↦ not (carried_lost h gone) | none ↦ true ]

  pub record Ready (c : StateCache D) (h : Text) : Type 0 where
    pub sink : c.has_sink ≡ true
    pub apart : is_apart h c.device_states c.departed ≡ true

  -- The edges of a section lead from the cache before it to the cache after it.
  pub record Traced (h : Text) (c : StateCache D) (after : StateCache D × List (Notice D))
      : Type 0 where
    pub edges : watch h (watch_of c h) after.1 ≡ some (watch_of after.0 h)
    pub ready : Ready after.0 h

  pub watch-append :
      (h : Text) (w w' : Watch) (xs ys : List (Notice D))
      → watch h w xs ≡ some w'
      → watch h w (xs ++ ys) ≡ watch h w' ys
  unfolding watch
  watch-append h w w' [] ys e = ground (arith, e)
  watch-append h w w' (reachability e ∷ xs) ys q =
      elim (Bool-cases (is_in_turn h w e.device_handle e.is_return e.edge_seq)) [
        | inl t ↦ rw (t) (
            watch-append h
              (record {
                last_seq = e.edge_seq;
                is_lost = if e.device_handle == h then not e.is_return else w.is_lost;
              })
              w' xs ys (ground arith))
        | inr f ↦ absurd (ground arith)
      ]
  watch-append h w w' (availability _ _ _ ∷ xs) ys q = watch-append h w w' xs ys q
  watch-append h w w' (removed _ _ ∷ xs) ys q = watch-append h w w' xs ys q
  watch-append h w w' (updated _ _ _ _ _ ∷ xs) ys q = watch-append h w w' xs ys q

  -- Updates are no edges.
  pub watch-updated :
      (h : Text) (w : Watch) (p d : Text) (rs : List (SignalReading D)) (ns : List (Notice D))
      → watch h w (map (λ r. updated p d r.read_signal r.read_value r.read_quality) rs ++ ns)
        ≡ watch h w ns
  unfolding watch
  watch-updated h w p d [] ns = refl
  watch-updated h w p d (r ∷ rs) ns = watch-updated h w p d rs ns

  lost_in-assign :
      (h k : Text) (s : DeviceState D) (states : Map Text (DeviceState D)) (gone : Map Text Carried)
      → lost_in h (assign k s states) gone
        ≡ (if k == h then s.loss_reported else lost_in h states gone)
  unfolding lost_in
  lost_in-assign h k s states gone = ground (arith, find-assign k h s states)

  is_apart-assign :
      (h k : Text) (s : DeviceState D) (states : Map Text (DeviceState D)) (gone : Map Text Carried)
      → is_apart h (assign k s states) gone
        ≡ (if k == h then not (carried_lost h gone) else is_apart h states gone)
  unfolding is_apart
  is_apart-assign h k s states gone = ground (arith, find-assign k h s states)

  -- What the state of a device that is there says.
  present :
      (h k : Text) (s : DeviceState D) (states : Map Text (DeviceState D)) (gone : Map Text Carried)
      → find k states ≡ some s
      → is_apart h states gone ≡ true
      → (k == h) ≡ true
      → (lost_in h states gone ≡ s.loss_reported) × (carried_lost h gone ≡ false)
  unfolding lost_in is_apart
  present h k s states gone f a same = ground (arith, (text_eq_iff k h).0 same)

  watch-availability :
      (c : StateCache D) (h : Text) (w : Watch) (t b : Bool) (p d : Text) (ns : List (Notice D))
      → watch h w (emitted c (when t (availability p d b)) ++ ns) ≡ watch h w ns
  unfolding watch
  watch-availability c h w t b p d ns = ground arith

  watch-emitted :
      (c : StateCache D) (h : Text) (w : Watch) (p d : Text) (rs : List (SignalReading D))
      (ns : List (Notice D))
      → watch h w
          (emitted c (map (λ r. updated p d r.read_signal r.read_value r.read_quality) rs) ++ ns)
        ≡ watch h w ns
  unfolding watch
  watch-emitted c h w p d rs ns = ground (arith, watch-updated h w p d rs ns)

  -- A section that puts the state `s` of the device `k`.
  put-Traced :
      (c : StateCache D) (h k : Text) (s : DeviceState D) (seq : ℕ) (ns : List (Notice D))
      → Ready c h
      → ((k == h) ≡ true → carried_lost h c.departed ≡ false)
      → watch h (watch_of c h) ns
        ≡ some (record {
          last_seq = seq;
          is_lost = if k == h then s.loss_reported else lost_in h c.device_states c.departed;
        })
      → Traced h c
          (record c { device_states = assign k s c.device_states; reachability_edge_seq = seq }, ns)
  unfolding watch
  put-Traced c h k s seq ns r gone e = record {
    edges = rw (lost_in-assign h k s c.device_states c.departed) e;
    ready = record {
      sink = r.sink;
      apart = ground (arith, is_apart-assign h k s c.device_states c.departed, r.apart, gone);
    };
  }

  pub mark_unavailable-Traced :
      (c : StateCache D) (h p d : Text) (b : Bool)
      → Ready c h
      → Traced h c (mark_unavailable c p d b)
  unfolding mark_unavailable watch
  mark_unavailable-Traced c h p d b r =
      elim (Option-cases (find (join_handle p d) c.device_states)) [
        | inl f ↦ rw (f, mark_unavailable) record { edges = refl; ready = r }
        | inr (s, f) ↦
            rw (f, mark_unavailable)
              (put-Traced c h (join_handle p d) _ _ _ r
                (λ same.
                  (present h (join_handle p d) s c.device_states c.departed f r.apart same).1)
                (ground
                  (arith, present h (join_handle p d) s c.device_states c.departed f r.apart)))
      ]

  pub fail_read-Traced :
      (c : StateCache D) (h p d : Text) (status : StatusCode) (b l : Bool)
      → Ready c h
      → Traced h c (fail_read c p d status b l)
  unfolding fail_read watch
  fail_read-Traced c h p d status b l r =
      elim (Option-cases (find (join_handle p d) c.device_states)) [
        | inl f ↦ rw (f, fail_read) record { edges = refl; ready = r }
        | inr (s, f) ↦
            rw (f, fail_read)
              (put-Traced c h (join_handle p d) _ _ _ r
                (λ same.
                  (present h (join_handle p d) s c.device_states c.departed f r.apart same).1)
                (ground (
                  arith,
                  present h (join_handle p d) s c.device_states c.departed f r.apart,
                  r.sink,
                )))
      ]

  pub update_device_state-Traced :
      (c : StateCache D) (h p d : Text) (now : ℤ) (rs : List (SignalReading D))
      → Ready c h
      → Traced h c (update_device_state c p d now rs)
  unfolding update_device_state watch
  update_device_state-Traced c h p d now rs r =
      elim (Option-cases (find (join_handle p d) c.device_states)) [
        | inl f ↦ rw (f, update_device_state) record { edges = refl; ready = r }
        | inr (s, f) ↦
            rw (f, update_device_state)
              (put-Traced c h (join_handle p d) _ _ _ r
                (λ same.
                  (present h (join_handle p d) s c.device_states c.departed f r.apart same).1)
                (watch-availability c h (watch_of c h) s.unavailable_emitted true p d _
                  ∙ (watch-emitted c h (watch_of c h) p d (update_signals s.signals rs).1 _
                      ∙ ground (
                        arith,
                        present h (join_handle p d) s c.device_states c.departed f r.apart,
                        r.sink,
                      ))))
      ]

  pub poll_device-Traced :
      (c : StateCache D) (h p d : Text) (read : ReadResult D)
      → Ready c h
      → Traced h c (poll_device c p d read)
  unfolding poll_device
  poll_device-Traced c h p d (read_failed status b l) r = fail_read-Traced c h p d status b l r
  poll_device-Traced c h p d (read_ok now rs) r = update_device_state-Traced c h p d now rs r
