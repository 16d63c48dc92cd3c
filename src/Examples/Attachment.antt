-- ===== src/Examples/Attachment.antt =====
-- Two interfaces that are attached and detached.
use mathlib.Core.List.{Permᴰ}
use mathlib.Core.List.Permᴰ
use wlt_traffic.Base.{
  ℕ_discrete, ◌≡◌, ◌≢◌, inl, inr, refl, true, false, none, some, List, codes, ◌==◌, if◌then◌else◌,
  arith,
}
use wlt_traffic.Error.{ok, err, driver, succeeded}
use wlt_traffic.Storage.Types.{GoString, GoString-discrete}
use wlt_traffic.Storage.Table.{find, upsert}
use wlt_traffic.Ebpf.Link.{direction_ingress, Kernel}
use wlt_traffic.Ebpf.Attachment.{
  AttachmentManager, AttachOptions, new_attachment_manager, attach_iface, attach_resolved,
  attach_option, attach_direction, set_direction_state, get_direction_state, get_iface_state,
}
use wlt_traffic.Ebpf.Attachment.Slots.{Slot, open_at, view}
use wlt_traffic.Ebpf.Attachment.Moves.{has, IsSound, CloseFault}
use wlt_traffic.Ebpf.Attachment.Linked.{IsLinked}
use wlt_traffic.Ebpf.Attachment.History.{
  Fault, Uses, unused, used, attached, idle, Uses-IsSound, attach_iface_leaks,
}

-- every call succeeds
abbrev pub calm : Kernel
calm = record {
  interface_by_name = λ n name. ok 2;
  attach_tcx = λ n ifindex d prog. none;
  close_link = λ n l. none;
}

calm-fine : ¬ Fault calm
calm-fine (inl (n, l, x, p)) = ground (arith, p)
calm-fine (inr (n, name, x, p)) = ground (arith, p)

pub calm-closes : ¬ CloseFault calm
calm-closes (n, l, x, p) = ground (arith, p)

abbrev pub same_order : List GoString → List GoString
same_order names = names

pub same_order-perm : (names : List GoString) → Permᴰ (same_order names) names
same_order-perm names = Permᴰ.refl names

abbrev both : AttachOptions
both = record { ingress = some 5; egress = some 6 }

abbrev new : AttachmentManager
new = new_attachment_manager (idle 0)

abbrev one : AttachmentManager
one = (attach_iface calm (codes "eth0") both new).1

abbrev two : AttachmentManager
two = (attach_iface calm (codes "wlan0") both one).1

two-Uses : Uses calm new two
two-Uses =
    used (used unused (attached (codes "eth0") both refl)) (attached (codes "wlan0") both refl)

Uses-IsSound_example : IsSound two × IsLinked two
Uses-IsSound_example = Uses-IsSound {k = calm} 0 {m = two} two-Uses

-- the interface is found once
abbrev fading : Kernel
fading = record calm { interface_by_name = λ n name. if n == 0 then ok 2 else err (driver 3) }

abbrev held : AttachmentManager
held = (attach_iface fading (codes "eth0") both new).1

held_link : open_at held (codes "eth0", direction_ingress) ≡ some 1
unfolding attach_iface attach_resolved attach_option attach_direction set_direction_state
    get_direction_state get_iface_state new_attachment_manager view find upsert GoString-discrete
    ℕ_discrete
held_link = refl

not_found : fading.interface_by_name held.net.calls (codes "eth0") ≡ err (driver 3)
unfolding attach_iface attach_resolved attach_option attach_direction set_direction_state
    get_direction_state get_iface_state new_attachment_manager find upsert GoString-discrete
    ℕ_discrete
not_found = refl

attach_iface_leaks_example :
    let (r, m) = attach_iface fading (codes "eth0") both held in
    (succeeded r ≡ false) × (has 1 m.net.links ≡ true) × ((s : Slot) → open_at m s ≢ some 1)
attach_iface_leaks_example =
    attach_iface_leaks fading held (codes "eth0") direction_ingress 1 both (driver 3)
      (Uses-IsSound {k = fading} 0 {m = held} (used unused (attached (codes "eth0") both refl))).0
      held_link not_found
