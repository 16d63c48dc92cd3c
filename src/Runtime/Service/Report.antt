-- ===== src/Runtime/Service/Report.antt =====
-- The status of the service: `GetStatus`, `UpdateFromResult`, `IsHealthy` and the others, and the
-- helpers at the end of runtime.go.
use wlt_traffic.Base.{Bool, true, false, ◌&&◌, ◌||◌, Option, List, [], ◌∷◌, ◌++◌, ◌==◌}
use wlt_traffic.Bootstrap.{Mode, StartupResult}
use wlt_traffic.Storage.Types.{GoString}
use wlt_traffic.Ebpf.TrafficMap.{TrafficMap}
use wlt_traffic.Ebpf.Attachment.{AttachmentManager, get_traffic_map}
use wlt_traffic.Runtime.Service.{Service, Status, contains}

unfoldable pub get_status : Service → Status
get_status s = s.status

unfoldable pub update_from_result : StartupResult → Service → Service
update_from_result result s = record s {
  status = record s.status {
    mode = result.mode;
    total_interfaces = result.total_interfaces;
    attached_interfaces = result.attached_interfaces;
    failed_interfaces = result.failed_interfaces;
  };
}

unfoldable pub is_healthy : Service → Bool
is_healthy s = elim s.status.mode [ Mode.healthy ↦ true | _ ↦ false ]

unfoldable pub is_degraded : Service → Bool
is_degraded s = elim s.status.mode [ Mode.degraded ↦ true | _ ↦ false ]

unfoldable pub is_failed : Service → Bool
is_failed s = elim s.status.mode [ Mode.failed ↦ true | _ ↦ false ]

unfoldable pub get_attachment_manager : Service → AttachmentManager
get_attachment_manager s = s.manager

-- `GetTrafficMap`
unfoldable pub service_map : Service → Option TrafficMap
unfolding get_traffic_map
service_map s = get_traffic_map s.manager

unfoldable pub has_failed_interface : GoString → List GoString → Bool
unfolding contains
has_failed_interface iface_name failed = contains failed iface_name

-- `strings.Join(texts, ",")`
abbrev join : List GoString → GoString
join [] = []
join (s ∷ []) = s
join (s ∷ t ∷ texts) = s ++ b',' ∷ join (t ∷ texts)

abbrev is_prefix : GoString → GoString → Bool
is_prefix [] s = true
is_prefix (c ∷ t) [] = false
is_prefix (c ∷ t) (d ∷ s) = (c == d) && is_prefix t s

-- `strings.Contains`
abbrev is_infix : GoString → GoString → Bool
is_infix t [] = is_prefix t []
is_infix t (c ∷ s) = is_prefix t (c ∷ s) || is_infix t s

unfoldable pub strings_contains : List GoString → GoString → Bool
unfolding contains
strings_contains haystack needle = contains haystack needle || is_infix needle (join haystack)
