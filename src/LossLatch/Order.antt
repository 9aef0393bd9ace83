-- ===== src/LossLatch/Order.antt =====
-- The order in which edges arrive does not matter to what is latched in the end.
use mathlib.Core.Bool.{Bool-set}
use mathlib.Core.List.{Perm, Permᴰ}
use mathlib.Core.Logic.{∥∥₁_elim}
use anolis.Base.{
  ◌≡◌, refl, sym, ap, ◌∙◌, Bool, not, ◌&&◌, ◌||◌, arith, List, [], ◌∷◌, any, Text, contains,
  contains-insert_sorted, text_key, ◌==◌,
}
use anolis.LossLatch.{
  DeviceLossLatch, Edge, transport_failure, apply_reachability_edge, is_latched, release_all,
  deliver,
}

-- A loss of the device at the transport level.
abbrev pub is_transport_loss : Text → Edge → Bool
is_transport_loss h e = e.device_handle == h && (not e.is_return && transport_failure e.last_status)

is_latched-apply_reachability_edge :
    (l : DeviceLossLatch) (e : Edge) (h : Text)
    → is_latched (apply_reachability_edge l e).0 h ≡ (is_latched l h || is_transport_loss h e)
unfolding is_latched apply_reachability_edge
is_latched-apply_reachability_edge l e h =
    ground (arith, contains-insert_sorted e.device_handle h l.latched)

-- A device is latched in the end exactly when it was before or one of the edges is a
-- transport-level loss of it, however stale that edge was when it arrived.
pub is_latched-deliver :
    (l : DeviceLossLatch) (es : List Edge) (h : Text)
    → is_latched (deliver l es).0 h ≡ (is_latched l h || any (is_transport_loss h) es)
unfolding deliver
is_latched-deliver l [] h = ground arith
is_latched-deliver l (e ∷ es) h = ground (
  arith,
  is_latched-apply_reachability_edge l e h,
  is_latched-deliver (apply_reachability_edge l e).0 es h,
)

pub any-Permᴰ : {xs ys : List Edge} (p : Edge → Bool) → Permᴰ xs ys → any p xs ≡ any p ys
any-Permᴰ p Permᴰ.nil = refl
any-Permᴰ p (Permᴰ.cons {l₁ = xs} {l₂ = ys} e r) = ground (arith, ap p e, any-Permᴰ p r)
any-Permᴰ p (Permᴰ.swap e f) = ground (arith, ap p e, ap p f)
any-Permᴰ p (Permᴰ.trans r q) = any-Permᴰ p r ∙ any-Permᴰ p q

-- The same edges delivered in any two orders leave the same devices latched.
pub deliver_order :
    (l : DeviceLossLatch) (es fs : List Edge) (h : Text)
    → Perm es fs
    → is_latched (deliver l es).0 h ≡ is_latched (deliver l fs).0 h
deliver_order l es fs h r = ∥∥₁_elim r (Bool-set _ _) λ d.
    is_latched-deliver l es h
    ∙ (ap (λ b. is_latched l h || b) (any-Permᴰ (is_transport_loss h) d)
        ∙ sym (is_latched-deliver l fs h))

-- Re-arming releases every device and reports exactly those that were latched; afterwards a device
-- is latched only by a transport-level loss that arrives later.
pub release_all-deliver :
    (l : DeviceLossLatch) (es : List Edge) (h : Text)
    → (contains h (release_all l).1 ≡ is_latched l h)
      × (is_latched (deliver (release_all l).0 es).0 h ≡ any (is_transport_loss h) es)
unfolding release_all is_latched contains
release_all-deliver l es h = (refl, is_latched-deliver (release_all l).0 es h)
