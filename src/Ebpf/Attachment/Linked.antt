-- ===== src/Ebpf/Attachment/Linked.antt =====
-- The links that attached directions store, through the operations of internal/ebpf/attachment.go.
use wlt_traffic.Base.{
  ℕ, ◌≡◌, ◌≢◌, inl, inr, true, Option, none, some, List, [], ◌∷◌, arith, Bool-cases, Option-cases,
}
use wlt_traffic.Error.{Error, Result, ok, err, wrapped, interface_not_found}
use wlt_traffic.Storage.Types.{GoString}
use wlt_traffic.Storage.Table.{find}
use wlt_traffic.Ebpf.Iface.{failed, DirectionState, is_attached}
use wlt_traffic.Ebpf.Link.{
  Direction, direction_ingress, direction_egress, Program, Link, Kernel, Net,
}
use wlt_traffic.Ebpf.Attachment.{
  AttachmentManager, AttachOptions, AttachResult, new_attachment_manager, attach_direction,
  attach_option, attach_resolved, attach_iface, attached_already, tcx_answer, called,
  get_direction_state, set_direction_state, set_iface_state,
}
use wlt_traffic.Ebpf.Attachment.Detach.{
  detach_direction, detach_iface, detach_each, close_answer, open_link,
}
use wlt_traffic.Ebpf.Attachment.Slots.{
  Slot, same_slot, view, view-set_direction_state, view-set_iface_state,
}

-- an attached direction stores a link
abbrev pub IsLinked : AttachmentManager → Type 0
IsLinked m = (s : Slot) → is_attached (view m s) ≡ true → (view m s).link ≢ none

pub new-IsLinked : (net : Net) → IsLinked (new_attachment_manager net)
unfolding new_attachment_manager view find
new-IsLinked net s h = ground (arith, h)

set_direction_state-IsLinked :
    (name : GoString) (d : Direction) (state : DirectionState) (m : AttachmentManager)
    → (is_attached state ≡ true → state.link ≢ none)
    → IsLinked m
    → IsLinked (set_direction_state name d state m)
set_direction_state-IsLinked name d state m fits linked s h =
    elim (Bool-cases (same_slot (name, d) s)) [
      | inl e ↦ λ p.
          fits (ground (arith, h, e, view-set_direction_state name d state m s))
            (ground (arith, p, e, view-set_direction_state name d state m s))
      | inr e ↦ λ p.
          linked s (ground (arith, h, e, view-set_direction_state name d state m s))
            (ground (arith, p, e, view-set_direction_state name d state m s))
    ]

failed-IsLinked :
    (name : GoString) (d : Direction) (x : Error) (m : AttachmentManager)
    → IsLinked m
    → IsLinked (set_iface_state name d failed (some x) m)
failed-IsLinked name d x m linked s h = elim (Bool-cases (same_slot (name, d) s)) [
  | inl e ↦ ground (arith, h, e, view-set_iface_state name d failed (some x) m s)
  | inr e ↦ λ p.
      linked s (ground (arith, h, e, view-set_iface_state name d failed (some x) m s))
        (ground (arith, p, e, view-set_iface_state name d failed (some x) m s))
]

-- the kernel's side plays no part
net-IsLinked : (net : Net) (m : AttachmentManager) → IsLinked m → IsLinked (record m { net = net })
unfolding view
net-IsLinked net m linked = linked

tcx_answer-IsLinked :
    (name : GoString) (ifindex : ℕ) (d : Direction) (answer : Option Error) (m : AttachmentManager)
    → IsLinked m
    → IsLinked (tcx_answer name ifindex d answer m).1
tcx_answer-IsLinked name ifindex d none m linked =
    set_direction_state-IsLinked name d _ _ (λ _ p. ground (arith, p)) (net-IsLinked _ m linked)
tcx_answer-IsLinked name ifindex d (some x) m linked =
    set_direction_state-IsLinked name d _ _ (λ h. ground (arith, h)) (net-IsLinked _ m linked)

close_answer-IsLinked :
    (name : GoString) (d : Direction) (l : Link) (answer : Option Error) (m : AttachmentManager)
    → IsLinked m
    → IsLinked (close_answer name d l answer m).1
close_answer-IsLinked name d l none m linked =
    set_direction_state-IsLinked name d _ _ (λ h. ground (arith, h)) (net-IsLinked _ m linked)
close_answer-IsLinked name d l (some x) m linked =
    set_direction_state-IsLinked name d _ _ (λ h. ground (arith, h)) (net-IsLinked _ m linked)

module _ (k : Kernel) where
  attach_direction-IsLinked :
      (name : GoString) (ifindex : ℕ) (d : Direction) (prog : Program) (m : AttachmentManager)
      → IsLinked m
      → IsLinked (attach_direction k name ifindex d prog m).1
  unfolding attach_direction
  attach_direction-IsLinked name ifindex d prog m linked =
      elim (Bool-cases (attached_already (get_direction_state m name d))) [
        | inl e ↦ rw (e, attach_direction) linked
        | inr e ↦
            rw (e, attach_direction)
              (tcx_answer-IsLinked name ifindex d (k.attach_tcx m.net.calls ifindex d prog) m
                linked)
      ]

  attach_option-IsLinked :
      (name : GoString) (ifindex : ℕ) (d : Direction) (prog : Option Program)
      (results : List AttachResult) (m : AttachmentManager)
      → IsLinked m
      → IsLinked (attach_option k name ifindex d prog (results, m)).1
  unfolding attach_option
  attach_option-IsLinked name ifindex d none results m linked = linked
  attach_option-IsLinked name ifindex d (some prog) results m linked =
      attach_direction-IsLinked name ifindex d prog m linked

  attach_resolved-IsLinked :
      (name : GoString) (opts : AttachOptions) (r : Result ℕ) (m : AttachmentManager)
      → IsLinked m
      → IsLinked (attach_resolved k name opts r m).1
  unfolding attach_resolved
  attach_resolved-IsLinked name opts (err x) m linked =
      let y = wrapped interface_not_found x in
      failed-IsLinked name direction_egress y
        (set_iface_state name direction_ingress failed (some y) m)
        (failed-IsLinked name direction_ingress y m linked)
  attach_resolved-IsLinked name opts (ok ifindex) m linked =
      let (results, m') = attach_option k name ifindex direction_ingress opts.ingress ([], m) in
      attach_option-IsLinked name ifindex direction_egress opts.egress results m'
        (attach_option-IsLinked name ifindex direction_ingress opts.ingress [] m linked)

  pub attach_iface-IsLinked :
      (name : GoString) (opts : AttachOptions) (m : AttachmentManager)
      → IsLinked m
      → IsLinked (attach_iface k name opts m).1
  unfolding attach_iface
  attach_iface-IsLinked name opts m linked =
      attach_resolved-IsLinked name opts (k.interface_by_name m.net.calls name) (called m)
        (net-IsLinked (called m).net m linked)

  detach_direction-IsLinked :
      (name : GoString) (d : Direction) (m : AttachmentManager)
      → IsLinked m
      → IsLinked (detach_direction k name d m).1
  unfolding detach_direction
  detach_direction-IsLinked name d m linked =
      elim (Option-cases (open_link (get_direction_state m name d))) [
        | inl e ↦ rw (e, detach_direction) linked
        | inr (l, e) ↦
            rw (e, detach_direction)
              (close_answer-IsLinked name d l (k.close_link m.net.calls l) m linked)
      ]

  pub detach_iface-IsLinked :
      (name : GoString) (m : AttachmentManager) → IsLinked m → IsLinked (detach_iface k name m).1
  unfolding detach_iface
  detach_iface-IsLinked name m linked =
      detach_direction-IsLinked name direction_egress
        (detach_direction k name direction_ingress m).1
        (detach_direction-IsLinked name direction_ingress m linked)

  pub detach_each-IsLinked :
      (names : List GoString) (m : AttachmentManager)
      → IsLinked m
      → IsLinked (detach_each k names m).1
  unfolding detach_each
  detach_each-IsLinked [] m linked = linked
  detach_each-IsLinked (name ∷ names) m linked =
      detach_each-IsLinked names (detach_iface k name m).1 (detach_iface-IsLinked name m linked)
