-- ===== src/Ebpf/Attachment/Slots.antt =====
-- The manager seen as the states of its slots: an interface and a direction each.
use wlt_traffic.Base.{◌≡◌, ◌∙◌, ap, refl, Bool, true, Option, none, some, arith, ite, if◌then◌else◌}
use wlt_traffic.Error.{Error}
use wlt_traffic.Storage.Types.{GoString, GoString-discrete}
use wlt_traffic.Storage.Table.{merged, find, find-upsert_self, find-upsert_ne}
use wlt_traffic.Ebpf.Link.{Net, Direction, direction_ingress, direction_egress, Link}
use wlt_traffic.Ebpf.Iface.{
  AttachState, DirectionState, IfaceState, no_direction_state, new_iface_state, state_in,
  with_state, is_attached, relabelled,
}
use wlt_traffic.Ebpf.Attachment.{
  AttachmentManager, set_direction_state, set_iface_state, get_iface_state, get_direction_state,
  change_iface, attached_already,
}
use wlt_traffic.Ebpf.Attachment.Detach.{open_link}

abbrev pub Slot : Type 0
Slot = GoString × Direction

unfoldable pub Direction-discrete : Discrete Direction
Direction-discrete = hlevel

unfoldable pub same_slot : Slot → Slot → Bool
same_slot s t =
    ite (GoString-discrete s.0 t.0) (ite (Direction-discrete s.1 t.1) Bool.true Bool.false)
      Bool.false

pub same_slot_refl : (s : Slot) → same_slot s s ≡ true
unfolding same_slot
same_slot_refl s = ground arith

pub same_slot_eq : (s t : Slot) → same_slot s t ≡ true → s ≡ t
unfolding same_slot
same_slot_eq s t h = ground arith

abbrev slot_in : Direction → Option IfaceState → DirectionState
slot_in d none = no_direction_state
slot_in d (some s) = state_in d s

-- the state of a slot, with the zero value for an interface that is not there
unfoldable pub view : AttachmentManager → Slot → DirectionState
view m s = slot_in s.1 (find GoString-discrete s.0 m.iface_states)

-- the link of a slot that is attached
abbrev pub link_of : DirectionState → Option Link
link_of d = if is_attached d then d.link else none

abbrev pub open_at : AttachmentManager → Slot → Option Link
open_at m s = link_of (view m s)

-- the slots of an entry that is changed, or made
slot_in-changed :
    (name : GoString) (d c : Direction) (f : DirectionState → DirectionState)
    (o : Option IfaceState)
    → slot_in c (
        some (
          merged
            (λ i _. with_state d (f (state_in d i)) i)
            (with_state d (f (state_in d (new_iface_state name))) (new_iface_state name))
            o))
      ≡ (if ite (Direction-discrete d c) Bool.true Bool.false then f (slot_in c o) else slot_in c o)
unfolding Direction-discrete
slot_in-changed name direction_ingress direction_ingress f none = refl
slot_in-changed name direction_ingress direction_ingress f (some i) = refl
slot_in-changed name direction_ingress direction_egress f none = refl
slot_in-changed name direction_ingress direction_egress f (some i) = refl
slot_in-changed name direction_egress direction_ingress f none = refl
slot_in-changed name direction_egress direction_ingress f (some i) = refl
slot_in-changed name direction_egress direction_egress f none = refl
slot_in-changed name direction_egress direction_egress f (some i) = refl

view-change_iface :
    (name : GoString) (d : Direction) (f : DirectionState → DirectionState) (m : AttachmentManager)
    (s : Slot)
    → view (change_iface name (λ i. with_state d (f (state_in d i)) i) m) s
      ≡ (if same_slot (name, d) s then f (view m s) else view m s)
unfolding view same_slot
view-change_iface name d f m (other, c) = elim (GoString-discrete name other) [
  | yes p ↦ rw (← p) (
      ap (slot_in c) (
        find-upsert_self GoString-discrete (λ i _. with_state d (f (state_in d i)) i) name
          (with_state d (f (state_in d (new_iface_state name))) (new_iface_state name))
          m.iface_states)
      ∙ slot_in-changed name d c f (find GoString-discrete name m.iface_states)
      ∙ ground arith)
  | no p ↦
      ap (slot_in c) (
        find-upsert_ne GoString-discrete (λ i _. with_state d (f (state_in d i)) i) name other
          (with_state d (f (state_in d (new_iface_state name))) (new_iface_state name))
          m.iface_states p)
      ∙ ground (arith, p)
]

pub view-set_direction_state :
    (name : GoString) (d : Direction) (state : DirectionState) (m : AttachmentManager) (s : Slot)
    → view (set_direction_state name d state m) s
      ≡ (if same_slot (name, d) s then state else view m s)
unfolding set_direction_state
view-set_direction_state name d state m s = view-change_iface name d (λ _. state) m s

pub view-set_iface_state :
    (name : GoString) (d : Direction) (state : AttachState) (msg : Option Error)
    (m : AttachmentManager) (s : Slot)
    → view (set_iface_state name d state msg m) s
      ≡ (if same_slot (name, d) s then relabelled state msg (view m s) else view m s)
unfolding set_iface_state
view-set_iface_state name d state msg m s = view-change_iface name d (relabelled state msg) m s

-- the manager's own lookups see the same states
pub attached_already-view :
    (m : AttachmentManager) (name : GoString) (d : Direction)
    → attached_already (get_direction_state m name d) ≡ is_attached (view m (name, d))
unfolding get_direction_state get_iface_state view
attached_already-view m name d = ground arith

pub open_link-view :
    (m : AttachmentManager) (name : GoString) (d : Direction)
    → open_link (get_direction_state m name d) ≡ open_at m (name, d)
unfolding get_direction_state get_iface_state view
open_link-view m name d = ground arith

pub net-set_direction_state :
    (name : GoString) (d : Direction) (state : DirectionState) (m : AttachmentManager)
    → (set_direction_state name d state m).net ≡ m.net
unfolding set_direction_state
net-set_direction_state name d state m = refl

pub net-set_iface_state :
    (name : GoString) (d : Direction) (state : AttachState) (msg : Option Error)
    (m : AttachmentManager)
    → (set_iface_state name d state msg m).net ≡ m.net
unfolding set_iface_state
net-set_iface_state name d state msg m = refl

pub view-net :
    (m : AttachmentManager) (net : Net) (s : Slot) → view (record m { net = net }) s ≡ view m s
unfolding view
view-net m net s = refl
