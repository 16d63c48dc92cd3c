-- ===== src/Runtime/Service/Untagged.antt =====
-- The service with the struct that internal/ebpf/loader.go gives to `LoadAndAssign`.
use wlt_traffic.Base.{◌≡◌, subst, []}
use wlt_traffic.Bootstrap.{Mode}
use wlt_traffic.Config.{Config}
use wlt_traffic.Error.{ok}
use wlt_traffic.Storage.Types.{GoString}
use wlt_traffic.Ebpf.Link.{Kernel, Net}
use wlt_traffic.Ebpf.TrafficMap.{TrafficMap}
use wlt_traffic.Ebpf.Attachment.{Collection}
use wlt_traffic.Ebpf.Loader.{Objects, AssignsTagged, new_loader}
use wlt_traffic.Ebpf.Loader.Untagged.{load_traffic_objects-Bare}
use wlt_traffic.Runtime.Service.{new_service, start_service}
use wlt_traffic.Runtime.Service.Start.{Loads}
use wlt_traffic.Runtime.Service.Mock.{start_unloaded}

-- If `LoadAndAssign` leaves fields without a tag alone, as it documents, and the limit on locked
-- memory and the loading of the objects succeed: whatever the object file holds and whichever
-- interfaces are configured, `Start` succeeds with the mode healthy and makes no call on any
-- interface.
pub start_untagged :
    (k : Kernel) (o : Objects) (cfg : Config) (path : GoString) (net : Net)
    (objects : Collection × TrafficMap)
    → AssignsTagged o
    → Loads o path objects
    → let (r, s) = start_service k o (new_service cfg path net) in
      (r ≡ ok tt)
      × (s.status.mode ≡ Mode.healthy)
      × (s.status.attached_interfaces ≡ [])
      × (s.status.failed_interfaces ≡ [])
      × (s.manager.net ≡ net)
start_untagged k o cfg path net objects documented loads =
    let (m, bare) = load_traffic_objects-Bare o documented (new_loader path) objects loads.loaded in
    start_unloaded k o cfg path net m (subst (Loads o path) bare loads)
