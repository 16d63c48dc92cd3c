-- ===== src/Ebpf/Attachment.antt =====
-- `AttachmentManager` of internal/ebpf/attachment.go: the attachment of the two programs to each
-- interface. Go gives the entries of a map in any order: the order is a parameter.
pub mod Detach
pub mod Status
pub mod Slots
pub mod Moves
pub mod Steps
pub mod Teardown
pub mod Linked
pub mod Outcome
pub mod History
use wlt_traffic.Base.{
  ℕ, suc, Bool, true, false, not, ◌&&◌, ◌||◌, Option, none, some, List, [], ◌∷◌, ◌++◌, map, ◌==◌,
  if◌then◌else◌,
}
use wlt_traffic.Base.Sort.{keep}
use wlt_traffic.Error.{Error, Result, ok, err, wrapped, interface_not_found, resolving_ifindex}
use wlt_traffic.Storage.Types.{GoString, GoString-discrete}
use wlt_traffic.Storage.Table.{Table, find, upsert}
use wlt_traffic.Ebpf.TrafficMap.{TrafficMap}
use wlt_traffic.Ebpf.Iface.{
  AttachState, unset, detached, attached, failed, DirectionState, IfaceState, new_iface_state,
  state_in, with_state, is_attached, has_failed, relabelled,
}
use wlt_traffic.Ebpf.Link.{
  Direction, direction_ingress, direction_egress, Program, Link, Kernel, Net,
}

pub record AttachResult : Type 0 where
  pub iface_name : GoString
  pub ifindex : ℕ
  pub direction : Direction
  pub state : AttachState
  pub error : Option Error

-- `res.State == StateFailed`
abbrev pub result_failed : AttachResult → Bool
result_failed r = elim r.state [ AttachState.failed ↦ true | _ ↦ false ]

pub record AttachOptions : Type 0 where
  pub ingress : Option Program
  pub egress : Option Program

-- `*ebpf.Collection`: the programs under their names
pub record Collection : Type 0 where
  pub handle_ingress : Option Program
  pub handle_egress : Option Program

pub record AttachmentManager : Type 0 where
  pub iface_states : Table GoString IfaceState
  pub collection : Option Collection
  pub traffic_map : Option TrafficMap
  -- the kernel's side
  pub net : Net

unfoldable pub new_attachment_manager : Net → AttachmentManager
new_attachment_manager net = record {
  iface_states = [];
  collection = none;
  traffic_map = none;
  net = net;
}

-- the entry of a name, made where it is missing, after a change
abbrev pub change_iface :
    GoString → (IfaceState → IfaceState) → AttachmentManager → AttachmentManager
change_iface name change m = record m {
  iface_states =
      upsert GoString-discrete (λ old _. change old) name (change (new_iface_state name))
        m.iface_states;
}

unfoldable pub set_iface_state :
    GoString → Direction → AttachState → Option Error → AttachmentManager → AttachmentManager
set_iface_state name d state msg =
    change_iface name (λ s. with_state d (relabelled state msg (state_in d s)) s)

unfoldable pub set_direction_state :
    GoString → Direction → DirectionState → AttachmentManager → AttachmentManager
set_direction_state name d state = change_iface name (λ s. with_state d state s)

unfoldable pub get_iface_state : AttachmentManager → GoString → Option IfaceState
get_iface_state m name = find GoString-discrete name m.iface_states

unfoldable pub get_direction_state :
    AttachmentManager → GoString → Direction → Option DirectionState
unfolding get_iface_state
get_direction_state m name d = elim (get_iface_state m name) [
  | none ↦ none
  | some s ↦ some (state_in d s)
]

-- `existing != nil && existing.State == StateAttached`
abbrev pub attached_already : Option DirectionState → Bool
attached_already none = false
attached_already (some d) = is_attached d

abbrev pub result_of : GoString → ℕ → Direction → AttachState → Option Error → AttachResult
result_of name ifindex d state error = record {
  iface_name = name;
  ifindex = ifindex;
  direction = d;
  state = state;
  error = error;
}

abbrev pub called : AttachmentManager → AttachmentManager
called m = record m { net = record m.net { calls = suc m.net.calls } }

-- the end of `attachDirection`, after the answer of `AttachTCX`
abbrev pub tcx_answer :
    GoString → ℕ → Direction → Option Error → AttachmentManager → AttachResult × AttachmentManager
tcx_answer name ifindex d (some x) m = (
  result_of name ifindex d failed (some x),
  set_direction_state name d (record { state = failed; link = none; error_msg = some x })
      (called m),
)
tcx_answer name ifindex d none m = (
  result_of name ifindex d attached none,
  set_direction_state name d
      (record { state = attached; link = some m.net.calls; error_msg = none })
      (record m { net = record { calls = suc m.net.calls; links = m.net.calls ∷ m.net.links } }),
)

module _ (k : Kernel) where
  unfoldable pub attach_direction :
      GoString → ℕ → Direction → Program → AttachmentManager → AttachResult × AttachmentManager
  unfolding get_direction_state set_direction_state
  attach_direction name ifindex d prog m =
      if attached_already (get_direction_state m name d)
      then (result_of name ifindex d attached none, m)
      else tcx_answer name ifindex d (k.attach_tcx m.net.calls ifindex d prog) m

  -- a direction of `AttachIface`, whose results follow those of `results`
  unfoldable pub attach_option :
      GoString
      → ℕ
      → Direction
      → Option Program
      → List AttachResult × AttachmentManager
      → List AttachResult × AttachmentManager
  unfolding attach_direction
  attach_option name ifindex d none (results, m) = (results, m)
  attach_option name ifindex d (some prog) (results, m) =
      let (res, m') = attach_direction name ifindex d prog m in (results ++ (res ∷ []), m')

  abbrev pub unresolved : GoString → Error → AttachmentManager → AttachmentManager
  unresolved name x m =
      set_iface_state name direction_egress failed (some x)
        (set_iface_state name direction_ingress failed (some x) m)

  -- the rest of `AttachIface`, after `resolveIfindex`
  unfoldable pub attach_resolved :
      GoString
      → AttachOptions
      → Result ℕ
      → AttachmentManager
      → Result (List AttachResult) × AttachmentManager
  unfolding set_iface_state attach_option
  attach_resolved name opts (err x) m =
      let resolve_error = wrapped interface_not_found x in
      (err (wrapped resolving_ifindex resolve_error), unresolved name resolve_error m)
  attach_resolved name opts (ok ifindex) m =
      let (results, m') =
        attach_option name ifindex direction_egress opts.egress
          (attach_option name ifindex direction_ingress opts.ingress ([], m)) in
      (ok results, m')

  unfoldable pub attach_iface :
      GoString → AttachOptions → AttachmentManager → Result (List AttachResult) × AttachmentManager
  unfolding attach_resolved
  attach_iface name opts m =
      attach_resolved name opts (k.interface_by_name m.net.calls name) (called m)

abbrev pub iface_names : AttachmentManager → List GoString
iface_names m = map (λ (entry : GoString × IfaceState). entry.0) m.iface_states

unfoldable pub set_collection :
    Option Collection → Option TrafficMap → AttachmentManager → AttachmentManager
set_collection coll tm m = record m { collection = coll; traffic_map = tm }

unfoldable pub get_traffic_map : AttachmentManager → Option TrafficMap
get_traffic_map m = m.traffic_map

unfoldable pub get_ingress : AttachmentManager → Option Program
get_ingress m = elim m.collection [ none ↦ none | some c ↦ c.handle_ingress ]

unfoldable pub get_egress : AttachmentManager → Option Program
get_egress m = elim m.collection [ none ↦ none | some c ↦ c.handle_egress ]

abbrev pub is_nil {ℓ} : {A : Type ℓ} → Option A → Bool
is_nil none = true
is_nil (some a) = false

unfoldable pub is_mock_mode : AttachmentManager → Bool
is_mock_mode m = elim m.collection [
  | none ↦ true
  | some c ↦ is_nil c.handle_ingress && is_nil c.handle_egress
]

-- `GetAllIfaceStates`
unfoldable pub get_all_iface_states : AttachmentManager → Table GoString IfaceState
get_all_iface_states m = m.iface_states
