-- ===== src/StateCache/Told.antt =====
-- The availability events, watched for one device.
use anolis.Base.{
  ℕ, ℤ, ◌≡◌, refl, ◌∙◌, Bool, true, false, ◌&&◌, Option, none, some, List, [], ◌∷◌, ◌++◌,
  if◌then◌else◌, arith, All, Text, text_key, ◌==◌, text_eq_iff, Map, find, assign, find-assign, map,
  Option-cases, inl, inr,
}
use anolis.Protocol.{StatusCode, Doubles}
use anolis.Registry.{join_handle}
use anolis.StateCache.{
  DeviceState, StateCache, Notice, availability, removed, updated, reachability, SignalReading,
  emitted, when, update_signals, next_seq,
}
use anolis.LossLatch.{Edge}
use anolis.StateCache.History.{Op, read, marked, polled, polled_now, rebuilt, perform, perform_all}
use anolis.StateCache.Polling.{
  return_edge, read_failed, read_ok, fail_read, update_device_state, poll_device, mark_unavailable,
}

module _ {D : Doubles} where
  abbrev pub IsSection : Op D → Type 0
  IsSection (read _ _ _) = Unit
  IsSection (marked _ _ _) = Unit
  IsSection _ = ⊥

  -- Whether subscribers were last told that the device is unavailable; `none` where they are told that it
  -- is back without that.
  unfoldable pub told : Text → Bool → List (Notice D) → Option Bool
  told h lost [] = some lost
  told h lost (availability p d true ∷ ns) =
      let back = told h false ns in
      let same = told h lost ns in
      if join_handle p d == h then (if lost then back else none) else same
  told h lost (availability p d false ∷ ns) =
      let gone = told h true ns in
      let same = told h lost ns in if join_handle p d == h then gone else same
  told h lost (_ ∷ ns) = told h lost ns

  -- Whether the cache holds that they were.
  unfoldable pub marked_in : Text → Map Text (DeviceState D) → Bool
  marked_in h states = elim (find h states) [ some s ↦ s.unavailable_emitted | none ↦ false ]

  marked_in-assign :
      (h k : Text) (s : DeviceState D) (states : Map Text (DeviceState D))
      → marked_in h (assign k s states)
        ≡ (if k == h then s.unavailable_emitted else marked_in h states)
  unfolding marked_in
  marked_in-assign h k s states = ground (arith, find-assign k h s states)

  marked_there :
      (h k : Text) (s : DeviceState D) (states : Map Text (DeviceState D))
      → find k states ≡ some s
      → (k == h) ≡ true
      → marked_in h states ≡ s.unavailable_emitted
  unfolding marked_in
  marked_there h k s states f same = ground (arith, (text_eq_iff k h).0 same)

  -- The events of a section lead from what subscribers held of the device to what they hold after it.
  pub record Tells (h : Text) (c : StateCache D) (after : StateCache D × List (Notice D))
      : Type 0 where
    pub tells :
        told h (marked_in h c.device_states) after.1 ≡ some (marked_in h after.0.device_states)
    pub same_emitter : after.0.has_emitter ≡ c.has_emitter

  told-updated :
      (h : Text) (lost : Bool) (p d : Text) (rs : List (SignalReading D)) (ns : List (Notice D))
      → told h lost (map (λ r. updated p d r.read_signal r.read_value r.read_quality) rs ++ ns)
        ≡ told h lost ns
  unfolding told
  told-updated h lost p d [] ns = refl
  told-updated h lost p d (r ∷ rs) ns = told-updated h lost p d rs ns

  -- A section that puts the state `s` of the device `k`.
  put-Tells :
      (c : StateCache D) (h k : Text) (s : DeviceState D) (seq : ℕ) (ns : List (Notice D))
      → told h (marked_in h c.device_states) ns
        ≡ some (if k == h then s.unavailable_emitted else marked_in h c.device_states)
      → Tells h c
          (record c { device_states = assign k s c.device_states; reachability_edge_seq = seq }, ns)
  put-Tells c h k s seq ns e = record {
    tells = rw (marked_in-assign h k s c.device_states) e;
    same_emitter = refl;
  }

  mark_unavailable-Tells :
      (c : StateCache D) (h p d : Text) (b : Bool)
      → c.has_emitter ≡ true
      → Tells h c (mark_unavailable c p d b)
  unfolding mark_unavailable told
  mark_unavailable-Tells c h p d b e =
      elim (Option-cases (find (join_handle p d) c.device_states)) [
        | inl f ↦ rw (f, mark_unavailable) record { tells = refl; same_emitter = refl }
        | inr (s, f) ↦
            rw (f, mark_unavailable)
              (put-Tells c h (join_handle p d) _ _ _
                (ground (arith, e, marked_there h (join_handle p d) s c.device_states f)))
      ]

  fail_read-Tells :
      (c : StateCache D) (h p d : Text) (status : StatusCode) (b l : Bool)
      → c.has_emitter ≡ true
      → Tells h c (fail_read c p d status b l)
  unfolding fail_read told
  fail_read-Tells c h p d status b l e =
      elim (Option-cases (find (join_handle p d) c.device_states)) [
        | inl f ↦ rw (f, fail_read) record { tells = refl; same_emitter = refl }
        | inr (s, f) ↦
            rw (f, fail_read)
              (put-Tells c h (join_handle p d) _ _ _
                (ground (arith, e, marked_there h (join_handle p d) s c.device_states f)))
      ]

  told-emitted :
      (c : StateCache D) (h : Text) (lost : Bool) (p d : Text) (rs : List (SignalReading D))
      (t : Bool) (n : Edge)
      → told h lost (
          emitted c (map (λ r. updated p d r.read_signal r.read_value r.read_quality) rs)
          ++ when t (reachability n))
        ≡ some lost
  unfolding told
  told-emitted c h lost p d rs t n =
      ground (arith, told-updated h lost p d rs (when t (reachability n)))

  update_device_state-Tells :
      (c : StateCache D) (h p d : Text) (now : ℤ) (rs : List (SignalReading D))
      → c.has_emitter ≡ true
      → Tells h c (update_device_state c p d now rs)
  unfolding update_device_state told
  update_device_state-Tells c h p d now rs e =
      elim (Option-cases (find (join_handle p d) c.device_states)) [
        | inl f ↦ rw (f, update_device_state) record { tells = refl; same_emitter = refl }
        | inr (s, f) ↦
            rw (f, update_device_state)
              (put-Tells c h (join_handle p d) _ _ _ (
                ground (
                  arith,
                  e,
                  marked_there h (join_handle p d) s c.device_states f,
                  told-emitted c h (marked_in h c.device_states) p d (update_signals s.signals rs).1
                      (s.loss_reported && c.has_sink)
                      (return_edge (join_handle p d) (next_seq c.reachability_edge_seq)),
                  told-emitted c h false p d (update_signals s.signals rs).1
                      (s.loss_reported && c.has_sink)
                      (return_edge (join_handle p d) (next_seq c.reachability_edge_seq)),
                )))
      ]

  section_Tells :
      (c : StateCache D) (h : Text) (op : Op D)
      → IsSection op
      → c.has_emitter ≡ true
      → Tells h c (perform c op)
  unfolding perform poll_device
  section_Tells c h (read p d (read_failed status b l)) v e = fail_read-Tells c h p d status b l e
  section_Tells c h (read p d (read_ok now rs)) v e = update_device_state-Tells c h p d now rs e
  section_Tells c h (marked p d b) v e = mark_unavailable-Tells c h p d b e
  section_Tells c h (polled _) v e = elim v [ ]
  section_Tells c h (polled_now _ _) v e = elim v [ ]
  section_Tells c h (rebuilt _ _ _) v e = elim v [ ]

  told-append :
      (h : Text) (b b' : Bool) (xs ys : List (Notice D))
      → told h b xs ≡ some b'
      → told h b (xs ++ ys) ≡ told h b' ys
  unfolding told
  told-append h b b' [] ys e = ground (arith, e)
  told-append h b b' (availability p d true ∷ xs) ys e =
      ground (arith, e, told-append h false b' xs ys, told-append h b b' xs ys)
  told-append h b b' (availability p d false ∷ xs) ys e =
      ground (arith, e, told-append h true b' xs ys, told-append h b b' xs ys)
  told-append h b b' (removed _ _ ∷ xs) ys e = told-append h b b' xs ys e
  told-append h b b' (updated _ _ _ _ _ ∷ xs) ys e = told-append h b b' xs ys e
  told-append h b b' (reachability _ ∷ xs) ys e = told-append h b b' xs ys e

  -- Between rebuilds, whatever sections of polls follow one another on a cache with an emitter: of each
  -- device subscribers are told that it is back only when they were told before that it is unavailable,
  -- and what they were told last is what the cache holds that they were told.
  pub sections_tell :
      (h : Text) (ops : List (Op D)) (c : StateCache D)
      → All IsSection ops
      → c.has_emitter ≡ true
      → told h (marked_in h c.device_states) (perform_all c ops).1
        ≡ some (marked_in h (perform_all c ops).0.device_states)
  unfolding perform_all told
  sections_tell h [] c v e = refl
  sections_tell h (op ∷ ops) c v e =
      let first = section_Tells c h op v.0 e in
      told-append h (marked_in h c.device_states) (marked_in h (perform c op).0.device_states)
        (perform c op).1 _ first.tells
      ∙ sections_tell h ops (perform c op).0 v.1 (first.same_emitter ∙ e)
