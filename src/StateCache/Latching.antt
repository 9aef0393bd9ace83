-- ===== src/StateCache/Latching.antt =====
-- The cache and the device-loss latch together: the sink is called outside of the cache's lock, so the
-- edges may reach the latch in any order.
use mathlib.Core.Bool.{Bool-set}
use mathlib.Core.List.{Perm}
use mathlib.Core.Logic.{∥∥₁_elim}
use anolis.Base.{
  ℕ, suc, ◌+◌, ◌<◌, ◌^◌, ◌≡◌, refl, sym, subst, ◌∙◌, Bool, true, false, not, ◌&&◌, ◌||◌, some, List,
  [], ◌∷◌, if◌then◌else◌, arith, All, any, length, ltb, leb, eqb, Text, text_key, text_eq_iff, ◌==◌,
  beq_refl, find, contains, find-assign, Bool-cases, inl, inr, ℤ,
}
use anolis.Protocol.{Doubles}
use anolis.LossLatch.{
  DeviceLossLatch, AppliedEdge, Edge, last_of, apply_reachability_edge, is_latched, deliver,
  new_latch,
}
use anolis.LossLatch.Order.{is_transport_loss, is_latched-deliver, any-Permᴰ}
use anolis.LossLatch.Reassert.{
  is_back_latched, asked_since_loss, return_is_reasserted, apply_reachability_edge_other,
}
use anolis.StateCache.{Notice, reachability, availability, removed, updated}
use anolis.Registry.{RegisteredDevice}
use anolis.StateCache.Edges.{Watch, watch, watch_of, is_in_turn}
use anolis.StateCache.History.{Op, HasDistinctHandles, started, perform_all, edges_in_turn}

-- The edge is of the device and does not fit under a newest one with number `m` and direction `b`.
abbrev pub is_above : Text → ℕ → Bool → Edge → Bool
is_above h m b e =
    e.device_handle == h
    && (ltb m e.edge_seq
        || (eqb m e.edge_seq && ((e.is_return && not b) || (not e.is_return && b))))

abbrev pub is_newest : Text → ℕ → Edge → Bool
is_newest h m e = e.device_handle == h && eqb e.edge_seq m

-- What the latch knows of the device fits under the newest edge, and is that edge once it has come.
abbrev pub is_under : ℕ → Bool → Bool → AppliedEdge → Bool
is_under m b seen last =
    (eqb last.seq m && ((last.reachable && b) || (not last.reachable && not b)))
    || (not seen && ltb last.seq m)

last_of-apply_reachability_edge :
    (l : DeviceLossLatch) (e : Edge)
    → last_of (apply_reachability_edge l e).0 e.device_handle ≡ (
        if leb e.edge_seq (last_of l e.device_handle).seq
        then last_of l e.device_handle
        else record { seq = e.edge_seq; reachable = e.is_return })
unfolding apply_reachability_edge last_of
last_of-apply_reachability_edge l e = ground (
  arith,
  beq_refl e.device_handle,
  find-assign e.device_handle e.device_handle (last_of l e.device_handle) l.last_edge,
  find-assign e.device_handle e.device_handle (record { seq = e.edge_seq; reachable = e.is_return })
      l.last_edge,
)

is_under-own :
    (l : DeviceLossLatch) (e : Edge) (m : ℕ) (b seen : Bool)
    → is_above e.device_handle m b e ≡ false
    → is_under m b seen (last_of l e.device_handle) ≡ true
    → is_under m b
        (seen || is_newest e.device_handle m e)
        (last_of (apply_reachability_edge l e).0 e.device_handle)
      ≡ true
is_under-own l e m b seen low under =
    rw (last_of-apply_reachability_edge l e)
      (elim (Bool-cases (leb e.edge_seq (last_of l e.device_handle).seq)) [
        | inl t ↦ rw (t) (ground (arith, beq_refl e.device_handle))
        | inr f ↦ rw (f) (ground (arith, beq_refl e.device_handle))
      ])

is_under-step :
    (l : DeviceLossLatch) (e : Edge) (h : Text) (m : ℕ) (b seen : Bool)
    → is_above h m b e ≡ false
    → is_under m b seen (last_of l h) ≡ true
    → is_under m b (seen || is_newest h m e) (last_of (apply_reachability_edge l e).0 h) ≡ true
is_under-step l e h m b seen low under = elim (Bool-cases (e.device_handle == h)) [
  | inl same ↦
      subst
        (λ k.
          is_above k m b e ≡ false
          → is_under m b seen (last_of l k) ≡ true
          → is_under m b (seen || is_newest k m e) (last_of (apply_reachability_edge l e).0 k)
            ≡ true)
        ((text_eq_iff e.device_handle h).0 same) (is_under-own l e m b seen) low under
  | inr other ↦ rw ((apply_reachability_edge_other l e h other).1) ground (arith, other)
]

or_assoc : (x y z : Bool) → ((x || y) || z) ≡ (x || (y || z))
or_assoc x y z = ground arith

is_under-deliver :
    (h : Text) (m : ℕ) (b seen : Bool) (es : List Edge) (l : DeviceLossLatch)
    → any (is_above h m b) es ≡ false
    → is_under m b seen (last_of l h) ≡ true
    → is_under m b (seen || any (is_newest h m) es) (last_of (deliver l es).0 h) ≡ true
unfolding deliver
is_under-deliver h m b seen [] l low under = ground arith
is_under-deliver h m b seen (e ∷ es) l low under =
    let l' = (apply_reachability_edge l e).0 in
    subst (λ s. is_under m b s (last_of (deliver l' es).0 h) ≡ true)
      (or_assoc seen (is_newest h m e) (any (is_newest h m) es))
      (is_under-deliver h m b (seen || is_newest h m e) es l' (ground arith)
        (is_under-step l e h m b seen (ground arith) under))

abbrev pub is_edge_of : Text → Edge → Bool
is_edge_of h e = e.device_handle == h

any-is_above_none :
    (h : Text) (m : ℕ) (b : Bool) (es : List Edge)
    → any (is_edge_of h) es ≡ false
    → any (is_above h m b) es ≡ false
any-is_above_none h m b [] e = refl
any-is_above_none h m b (x ∷ es) e = ground (arith, any-is_above_none h m b es)

-- The newest edge of the device among these, or that there is none.
pub data Newest (h : Text) (w w' : Watch) (es : List Edge) : Type 0 where
  no_edge : any (is_edge_of h) es ≡ false → w'.is_lost ≡ w.is_lost → Newest h w w' es
  newest :
      (m : ℕ)
      → w.last_seq < m
      → any (is_newest h m) es ≡ true
      → any (is_above h m (not w'.is_lost)) es ≡ false
      → Newest h w w' es

Newest-cons :
    (h : Text) (x : Edge) (es : List Edge) (w w' : Watch) (lost : Bool)
    → lost ≡ (if x.device_handle == h then not x.is_return else w.is_lost)
    → w.last_seq < x.edge_seq
    → Newest h (record { last_seq = x.edge_seq; is_lost = lost }) w' es
    → Newest h w w' (x ∷ es)
Newest-cons h x es w w' lost l lt (no_edge n q) = elim (Bool-cases (x.device_handle == h)) [
  | inl t ↦
      newest x.edge_seq lt (ground arith)
        (ground (arith, any-is_above_none h x.edge_seq (not w'.is_lost) es n))
  | inr f ↦ no_edge (ground arith) (ground arith)
]
Newest-cons h x es w w' lost l lt (newest m above some_newest none_above) =
    newest m (ground arith) (ground arith) (ground arith)

module _ {D : Doubles} where
  abbrev pub edges_of : List (Notice D) → List Edge
  edges_of [] = []
  edges_of (reachability e ∷ ns) = e ∷ edges_of ns
  edges_of (_ ∷ ns) = edges_of ns

  watch-Newest :
      (h : Text) (ns : List (Notice D)) (w w' : Watch)
      → watch h w ns ≡ some w'
      → w.last_seq + length (edges_of ns) < 2 ^ 64
      → Newest h w w' (edges_of ns)
  unfolding watch
  watch-Newest h [] w w' e small = no_edge refl (ground arith)
  watch-Newest h (reachability x ∷ ns) w w' e small =
      elim (Bool-cases (is_in_turn h w x.device_handle x.is_return x.edge_seq)) [
        | inl t ↦
            let seq : x.edge_seq ≡ suc w.last_seq = ground arith in
            Newest-cons h x (edges_of ns) w w' _ refl (ground arith)
              (watch-Newest h ns _ w' (ground arith) (ground arith))
        | inr f ↦ absurd (ground arith)
      ]
  watch-Newest h (availability _ _ _ ∷ ns) w w' e small = watch-Newest h ns w w' e small
  watch-Newest h (removed _ _ ∷ ns) w w' e small = watch-Newest h ns w w' e small
  watch-Newest h (updated _ _ _ _ _ ∷ ns) w w' e small = watch-Newest h ns w w' e small

any-Perm : (p : Edge → Bool) (es fs : List Edge) → Perm es fs → any p es ≡ any p fs
any-Perm p es fs r = ∥∥₁_elim r (Bool-set _ _) (any-Permᴰ p)

any-is_transport_loss :
    (h : Text) (es : List Edge)
    → any (is_edge_of h) es ≡ false
    → any (is_transport_loss h) es ≡ false
any-is_transport_loss h [] e = refl
any-is_transport_loss h (x ∷ es) e = ground (arith, any-is_transport_loss h es)

Newest-reachable :
    {w w' : Watch} {es : List Edge} (h : Text) (fs : List Edge)
    → Newest h w w' es
    → Perm es fs
    → w'.is_lost ≡ false
    → is_latched (deliver new_latch fs).0 h ≡ true
    → (last_of (deliver new_latch fs).0 h).reachable ≡ true
unfolding is_latched last_of find contains
Newest-reachable {es = es} h fs (no_edge n _) r back held = absurd (
    ground (
      arith,
      is_latched-deliver new_latch fs h,
      any-is_transport_loss h fs (sym (any-Perm (is_edge_of h) es fs r) ∙ n),
    ))
Newest-reachable {w' = w'} {es = es} h fs (newest m above some_newest none_above) r back held =
    ground (
      arith,
      is_under-deliver h m true false fs new_latch
          (sym (any-Perm (is_above h m true) es fs r)
            ∙ subst (λ b. any (is_above h m (not b)) es ≡ false) back none_above)
          (ground arith),
      sym (any-Perm (is_newest h m) es fs r) ∙ some_newest,
    )

-- The edges of the cache in any order: if the last one that it sent for the device is not a loss, and
-- the latch holds the device all the same, its safe state has been asked for since its last newer loss.
watched_return_is_reasserted :
    {D : Doubles} (h : Text) (ns : List (Notice D)) (w' : Watch) (fs : List Edge)
    → watch h (record { last_seq = 0; is_lost = false }) ns ≡ some w'
    → w'.is_lost ≡ false
    → length (edges_of ns) < 2 ^ 64
    → Perm (edges_of ns) fs
    → is_latched (deliver new_latch fs).0 h ≡ true
    → asked_since_loss h false new_latch fs ≡ true
unfolding is_back_latched
watched_return_is_reasserted h ns w' fs e back small r held = return_is_reasserted h fs (
    ground
      (arith, held, Newest-reachable h fs (watch-Newest h ns _ w' e (ground arith)) r back held))

-- For any history of a cache wired to the sink, with no handle twice in an inventory of a rebuild and
-- fewer than 2^64 edges, and any order in which its edges arrive at a new latch: a device that the
-- latch holds, and that the cache in the end no longer holds for lost, has had its safe state asked for
-- since the last newer loss of it that the latch applied.
pub history_is_reasserted :
    {D : Doubles} (h : Text) (emitter : Bool) (devices : List (RegisteredDevice D)) (now : ℤ)
    (ops : List (Op D)) (fs : List Edge)
    → All HasDistinctHandles ops
    → length (edges_of (perform_all (started emitter true devices now) ops).1) < 2 ^ 64
    → Perm (edges_of (perform_all (started emitter true devices now) ops).1) fs
    → (watch_of (perform_all (started emitter true devices now) ops).0 h).is_lost ≡ false
    → is_latched (deliver new_latch fs).0 h ≡ true
    → asked_since_loss h false new_latch fs ≡ true
history_is_reasserted h emitter devices now ops fs v small r back held =
    watched_return_is_reasserted h (perform_all (started emitter true devices now) ops).1
      (watch_of (perform_all (started emitter true devices now) ops).0 h) fs
      (edges_in_turn h emitter devices now ops v) back small r held
