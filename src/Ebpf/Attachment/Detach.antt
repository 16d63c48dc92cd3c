-- ===== src/Ebpf/Attachment/Detach.antt =====
-- `DetachIface` and `DetachAll` of internal/ebpf/attachment.go.
use wlt_traffic.Base.{suc, not, Option, none, some, List, [], ◌∷◌, ◌++◌, ◌==◌, if◌then◌else◌}
use wlt_traffic.Base.Sort.{keep}
use wlt_traffic.Error.{Error}
use wlt_traffic.Storage.Types.{GoString}
use wlt_traffic.Ebpf.Iface.{detached, failed, DirectionState, is_attached}
use wlt_traffic.Ebpf.Link.{Direction, direction_ingress, direction_egress, Link, Kernel}
use wlt_traffic.Ebpf.Attachment.{
  AttachResult, AttachmentManager, result_of, called, set_direction_state, get_direction_state,
  iface_names,
}

-- the links without the one that is closed
unfoldable pub without : Link → List Link → List Link
without l = keep (λ x. not (x == l))

-- the end of `detachDirection`, after the answer of `Close`
abbrev pub close_answer :
    GoString
    → Direction
    → Link
    → Option Error
    → AttachmentManager
    → AttachResult × AttachmentManager
close_answer name d l (some x) m = (
  result_of name 0 d failed (some x),
  set_direction_state name d (record { state = failed; link = none; error_msg = some x })
      (called m),
)
close_answer name d l none m = (
  result_of name 0 d detached none,
  set_direction_state name d (record { state = detached; link = none; error_msg = none })
      (record m { net = record { calls = suc m.net.calls; links = without l m.net.links } }),
)

-- the link that there is to close: that of an attached direction
abbrev pub open_link : Option DirectionState → Option Link
open_link none = none
open_link (some d) = if is_attached d then d.link else none

module _ (k : Kernel) where
  unfoldable pub detach_direction :
      GoString → Direction → AttachmentManager → AttachResult × AttachmentManager
  unfolding get_direction_state set_direction_state
  detach_direction name d m = elim (open_link (get_direction_state m name d)) [
    | none ↦ (result_of name 0 d detached none, m)
    | some l ↦ close_answer name d l (k.close_link m.net.calls l) m
  ]

  unfoldable pub detach_iface : GoString → AttachmentManager → List AttachResult × AttachmentManager
  detach_iface name m =
      let (r, m') = detach_direction name direction_ingress m in
      let (r', m'') = detach_direction name direction_egress m' in (r ∷ r' ∷ [], m'')

  -- the loop of `DetachAll` over the names
  unfoldable pub detach_each :
      List GoString → AttachmentManager → List AttachResult × AttachmentManager
  detach_each [] m = ([], m)
  detach_each (name ∷ names) m =
      let (rs, m') = detach_iface name m in
      let (rest, m'') = detach_each names m' in (rs ++ rest, m'')

  -- the names in the order in which Go gives them
  unfoldable pub detach_all :
      (List GoString → List GoString) → AttachmentManager → List AttachResult × AttachmentManager
  detach_all order m = detach_each (order (iface_names m)) m
