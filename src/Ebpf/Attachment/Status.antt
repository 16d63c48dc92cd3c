-- ===== src/Ebpf/Attachment/Status.antt =====
-- What `AttachmentManager` tells of the interfaces.
use wlt_traffic.Base.{Bool, false, ◌||◌, Option, none, some, List}
use wlt_traffic.Base.Sort.{keep}
use wlt_traffic.Storage.Types.{GoString}
use wlt_traffic.Ebpf.Iface.{IfaceState, is_attached, has_failed}
use wlt_traffic.Ebpf.Attachment.{AttachmentManager, get_iface_state, iface_names}

-- one direction is attached
abbrev pub either_attached : Option IfaceState → Bool
either_attached none = false
either_attached (some s) = is_attached s.ingress || is_attached s.egress

unfoldable pub is_iface_attached : AttachmentManager → GoString → Bool
unfolding get_iface_state
is_iface_attached m name = either_attached (get_iface_state m name)

abbrev some_state : (IfaceState → Bool) → Option IfaceState → Bool
some_state test none = false
some_state test (some s) = test s

-- `GetAttachedInterfaces`, which looks at the ingress direction only
unfoldable pub get_attached_interfaces :
    (List GoString → List GoString) → AttachmentManager → List GoString
unfolding get_iface_state
get_attached_interfaces order m =
    keep (λ name. some_state (λ s. is_attached s.ingress) (get_iface_state m name))
      (order (iface_names m))

unfoldable pub get_failed_interfaces :
    (List GoString → List GoString) → AttachmentManager → List GoString
unfolding get_iface_state
get_failed_interfaces order m =
    keep
      (λ name.
        some_state (λ s. has_failed s.ingress || has_failed s.egress) (get_iface_state m name))
      (order (iface_names m))
