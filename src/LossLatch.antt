-- ===== src/LossLatch.antt =====
-- core/control/device_loss_latch.{hpp,cpp}: devices that went unreachable, latched against
-- autonomous actuation until they are re-armed. A method is one critical section. The callback that
-- names an expected loss chooses only between log lines and is left out.
pub mod Order
pub mod Reassert
use anolis.Base.{
  ℕ, Bool, true, false, not, ◌&&◌, ◌||◌, Option, none, some, List, [], ◌∷◌, if◌then◌else◌, ltb, leb,
  Text, Map, find, assign, contains, insert_sorted, text_key, ◌==◌, Key,
}
use anolis.Protocol.{StatusCode, is_code_unavailable, is_code_deadline_exceeded}

pub record AppliedEdge : Type 0 where
  pub seq : ℕ
  pub reachable : Bool

pub record DeviceLossLatch : Type 0 where
  pub latched : List Text
  pub last_edge : Map Text AppliedEdge

-- The arguments of the sink: one reachability edge.
pub record Edge : Type 0 where
  pub device_handle : Text
  pub is_return : Bool
  pub last_status : StatusCode
  pub edge_seq : ℕ

abbrev pub new_latch : DeviceLossLatch
new_latch = record { latched = []; last_edge = [] }

unfoldable pub transport_failure : StatusCode → Bool
transport_failure status = is_code_unavailable status || is_code_deadline_exceeded status

-- `last_edge_[device_handle]` reads a missing entry as the default one, and creates it.
unfoldable pub last_of : DeviceLossLatch → Text → AppliedEdge
last_of l h = elim (find h l.last_edge) [
  | none ↦ record { seq = 0; reachable = false }
  | some e ↦ e
]

-- The latch after the edge, and whether the caller should re-assert the device's safe state.
unfoldable pub apply_reachability_edge : DeviceLossLatch → Edge → DeviceLossLatch × Bool
unfolding transport_failure last_of
apply_reachability_edge l e =
    let h = e.device_handle in
    let failure = transport_failure e.last_status in
    let last = last_of l h in
    let touched : DeviceLossLatch = record l { last_edge = assign h last l.last_edge } in
    let newest : AppliedEdge = record { seq = e.edge_seq; reachable = e.is_return } in
    let moved : DeviceLossLatch = record l { last_edge = assign h newest l.last_edge } in
    if leb e.edge_seq last.seq
    then if e.is_return || not failure then (touched, false) else (
      record touched { latched = insert_sorted h l.latched },
      not (contains h l.latched) && last.reachable,
    )
    else if e.is_return
    then (moved, contains h l.latched)
    else (if failure then record moved { latched = insert_sorted h l.latched } else moved, false)

unfoldable pub is_latched : DeviceLossLatch → Text → Bool
is_latched l h = contains h l.latched

-- The latch after the release, and what was released, in the set's order.
unfoldable pub release_all : DeviceLossLatch → DeviceLossLatch × List Text
release_all l = (record l { latched = [] }, l.latched)

-- The reachability sink: the edges in the order in which they arrive, and the devices for which
-- `reissue` is called, in that order.
unfoldable pub deliver : DeviceLossLatch → List Edge → DeviceLossLatch × List Text
deliver l [] = (l, [])
deliver l (e ∷ es) =
    let (l', ask) = apply_reachability_edge l e in
    let (l'', asked) = deliver l' es in (l'', if ask then e.device_handle ∷ asked else asked)
