-- ===== src/Ebpf/Iface.antt =====
-- The states of an interface and its two directions, of internal/ebpf/attachment.go. No code sets a
-- `*DirectionState` to nil, so an interface holds the states themselves.
use wlt_traffic.Base.{ℕ, Bool, true, false, Option, none}
use wlt_traffic.Error.{Error}
use wlt_traffic.Storage.Types.{GoString}
use wlt_traffic.Ebpf.Link.{Direction, direction_ingress, direction_egress, Link}

-- the empty string is `unset`
pub data AttachState : Type 0 where
  unset detached attached failed : AttachState

pub record DirectionState : Type 0 where
  pub state : AttachState
  pub link : Option Link
  -- `err.Error()`, empty for `none`
  pub error_msg : Option Error

pub record IfaceState : Type 0 where
  pub name : GoString
  pub ifindex : ℕ
  pub ingress : DirectionState
  pub egress : DirectionState

-- `&DirectionState{}` and `&IfaceState{Name: …}`
abbrev pub no_direction_state : DirectionState
no_direction_state = record { state = unset; link = none; error_msg = none }

abbrev pub new_iface_state : GoString → IfaceState
new_iface_state name = record {
  name = name;
  ifindex = 0;
  ingress = no_direction_state;
  egress = no_direction_state;
}

abbrev pub state_in : Direction → IfaceState → DirectionState
state_in direction_ingress s = s.ingress
state_in direction_egress s = s.egress

abbrev pub with_state : Direction → DirectionState → IfaceState → IfaceState
with_state direction_ingress d s = record s { ingress = d }
with_state direction_egress d s = record s { egress = d }

abbrev pub is_attached : DirectionState → Bool
is_attached d = elim d.state [ attached ↦ true | _ ↦ false ]

abbrev pub has_failed : DirectionState → Bool
has_failed d = elim d.state [ failed ↦ true | _ ↦ false ]

-- the link stays, unless the state is `detached`
abbrev pub relabelled : AttachState → Option Error → DirectionState → DirectionState
relabelled detached msg d = record { state = detached; link = none; error_msg = msg }
relabelled state msg d = record { state = state; link = d.link; error_msg = msg }
