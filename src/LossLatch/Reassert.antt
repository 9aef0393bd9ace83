-- ===== src/LossLatch/Reassert.antt =====
-- When the safe state of a device is asked to be re-asserted.
use anolis.Base.{
  ◌≡◌, sym, subst, Bool, true, false, not, ◌&&◌, ◌||◌, arith, List, [], ◌∷◌, if◌then◌else◌, ltb,
  Text, find-assign, contains, inl, inr, contains-insert_sorted, text_key, ◌==◌, text_eq_iff,
  Bool-cases, beq_refl,
}
use anolis.LossLatch.{
  DeviceLossLatch, Edge, last_of, apply_reachability_edge, is_latched, deliver, new_latch,
}

-- The device is latched, and its newest applied edge says that it is back.
unfoldable pub is_back_latched : DeviceLossLatch → Text → Bool
unfolding is_latched last_of
is_back_latched l h = is_latched l h && (last_of l h).reachable

-- An edge asks for the safe state of its device exactly when it leaves the device latched and back,
-- and either it is a newer edge than any before it or the device was not so already.
pub reissue_exact :
    (l : DeviceLossLatch) (e : Edge)
    → (apply_reachability_edge l e).1 ≡ (
        is_back_latched (apply_reachability_edge l e).0 e.device_handle
        && (ltb (last_of l e.device_handle).seq e.edge_seq
            || not (is_back_latched l e.device_handle)))
unfolding apply_reachability_edge is_back_latched
reissue_exact l e = ground (
  arith,
  contains-insert_sorted e.device_handle e.device_handle l.latched,
  beq_refl e.device_handle,
  find-assign e.device_handle e.device_handle (last_of l e.device_handle) l.last_edge,
  find-assign e.device_handle e.device_handle (record { seq = e.edge_seq; reachable = e.is_return })
      l.last_edge,
)

-- An edge changes nothing of a device that it is not about.
pub apply_reachability_edge_other :
    (l : DeviceLossLatch) (e : Edge) (h : Text)
    → (e.device_handle == h) ≡ false
    → (is_latched (apply_reachability_edge l e).0 h ≡ is_latched l h)
      × (last_of (apply_reachability_edge l e).0 h ≡ last_of l h)
unfolding apply_reachability_edge is_latched last_of
apply_reachability_edge_other l e h ne = (
  ground (arith, contains-insert_sorted e.device_handle h l.latched),
  ground (
    arith,
    find-assign e.device_handle h (last_of l e.device_handle) l.last_edge,
    find-assign e.device_handle h (record { seq = e.edge_seq; reachable = e.is_return })
        l.last_edge,
  ),
)

-- The edge is a loss newer than every edge applied for its device.
abbrev pub is_newer_loss : DeviceLossLatch → Edge → Bool
is_newer_loss l e = not e.is_return && ltb (last_of l e.device_handle).seq e.edge_seq

abbrev asked_next : Text → Bool → DeviceLossLatch → Edge → Bool
asked_next h asked l e =
    if e.device_handle == h
    then (apply_reachability_edge l e).1 || (asked && not (is_newer_loss l e))
    else asked

-- Whether the safe state of `h` has been asked for since the last newer loss of it, where `asked`
-- says so of the time before these edges.
unfoldable pub asked_since_loss : Text → Bool → DeviceLossLatch → List Edge → Bool
asked_since_loss h asked l [] = asked
asked_since_loss h asked l (e ∷ es) =
    asked_since_loss h (asked_next h asked l e) (apply_reachability_edge l e).0 es

asked_same :
    (l : DeviceLossLatch) (e : Edge) (asked : Bool)
    → (is_back_latched l e.device_handle ≡ true → asked ≡ true)
    → is_back_latched (apply_reachability_edge l e).0 e.device_handle ≡ true
    → ((apply_reachability_edge l e).1 || (asked && not (is_newer_loss l e))) ≡ true
asked_same l e asked before back = elim (Bool-cases (is_back_latched l e.device_handle)) [
  | inl was ↦ ground (arith, reissue_exact l e, before was)
  | inr not_yet ↦ ground (arith, reissue_exact l e)
]

asked_step :
    (l : DeviceLossLatch) (e : Edge) (h : Text) (asked : Bool)
    → (is_back_latched l h ≡ true → asked ≡ true)
    → is_back_latched (apply_reachability_edge l e).0 h ≡ true
    → asked_next h asked l e ≡ true
unfolding is_back_latched
asked_step l e h asked before back = elim (Bool-cases (e.device_handle == h)) [
  | inl same ↦
      let eq = sym ((text_eq_iff e.device_handle h).0 same) in
      rw same (
        asked_same l e asked (subst (λ k. is_back_latched l k ≡ true → asked ≡ true) eq before)
          (subst (λ k. is_back_latched (apply_reachability_edge l e).0 k ≡ true) eq back))
  | inr other ↦ rw other (before (ground (arith, apply_reachability_edge_other l e h other)))
]

asked_since_loss_inv :
    (h : Text) (asked : Bool) (l : DeviceLossLatch) (es : List Edge)
    → (is_back_latched l h ≡ true → asked ≡ true)
    → is_back_latched (deliver l es).0 h ≡ true
    → asked_since_loss h asked l es ≡ true
unfolding asked_since_loss deliver
asked_since_loss_inv h asked l [] before back = before back
asked_since_loss_inv h asked l (e ∷ es) before back =
    asked_since_loss_inv h (asked_next h asked l e) (apply_reachability_edge l e).0 es
      (asked_step l e h asked before) back

-- No re-assertion is lost to the order of arrival: whatever edges arrive in whatever order, a device
-- that is latched in the end and whose newest applied edge is a return has had its safe state asked
-- for since its last newer loss was applied.
pub return_is_reasserted :
    (h : Text) (es : List Edge)
    → is_back_latched (deliver new_latch es).0 h ≡ true
    → asked_since_loss h false new_latch es ≡ true
unfolding is_back_latched is_latched contains
return_is_reasserted h es back = asked_since_loss_inv h false new_latch es (λ e. ground arith) back
