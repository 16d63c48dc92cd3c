-- ===== src/Examples/Service.antt =====
-- A service with two interfaces.
use wlt_traffic.Base.{
  ◌≡◌, refl, true, Option, none, some, [], ◌∷◌, AreDistinct, codes, length, ◌==◌, if◌then◌else◌,
  arith,
}
use wlt_traffic.Error.{ok, err, driver}
use wlt_traffic.Bootstrap.{Mode}
use wlt_traffic.Config.{Config, default_config}
use wlt_traffic.Storage.Types.{GoString}
use wlt_traffic.Ebpf.TrafficMap.{TrafficMap}
use wlt_traffic.Ebpf.Link.{Program, Kernel}
use wlt_traffic.Ebpf.Attachment.{Collection}
use wlt_traffic.Ebpf.Attachment.History.{idle}
use wlt_traffic.Go.Files.{not_exist, file_of_size}
use wlt_traffic.Ebpf.Loader.{
  Objects, AssignsTagged, mock_spec, new_traffic_map, prepare_memlock, load_spec,
  load_traffic_objects,
}
use wlt_traffic.Runtime.Service.{Service, new_service, start_service}
use wlt_traffic.Runtime.Service.Start.{Loads, IsShown, start_status}
use wlt_traffic.Runtime.Service.Untagged.{start_untagged}
use wlt_traffic.Ebpf.Loader.Untagged.{without_programs_map}
use wlt_traffic.Runtime.Service.Mock.{mock-Loads, start_unloaded}
use wlt_traffic.Examples.Data.{kernel}
use wlt_traffic.Examples.Attachment.{calm}

abbrev pub two_interfaces : Config
two_interfaces = record default_config {
  interfaces = codes "eth0" ∷ codes "wlan0" ∷ [];
  allow_partial = true;
}

pub two-AreDistinct : AreDistinct two_interfaces.interfaces
unfolding default_config
two-AreDistinct = ground arith

-- both programs, whatever the tags
abbrev pub objects : Objects
objects = record {
  stat = λ path. file_of_size 20_000;
  remove_memlock = none;
  load_collection_spec = λ path. ok mock_spec;
  new_map = λ spec. ok kernel;
  load_and_assign = λ spec m tags. ok (some 5, some 6);
}

abbrev map_there : TrafficMap
map_there = record { m = some kernel }

abbrev programs : Collection × TrafficMap
programs = (record { handle_ingress = some 5; handle_egress = some 6 }, map_there)

objects-Loads : Loads objects [] programs
unfolding prepare_memlock load_spec load_traffic_objects new_traffic_map
objects-Loads = record { prepared = refl; loaded = refl }

-- names of four bytes are found
abbrev half : Kernel
half = record calm {
  interface_by_name = λ n name. if length name == 4 then ok 2 else err (driver 3);
}

abbrev start : Kernel → Service
start k = (start_service k objects (new_service two_interfaces [] (idle 0))).1

start_status_example :
    IsShown two_interfaces (start_service half objects (new_service two_interfaces [] (idle 0)))
start_status_example =
    start_status half objects two_interfaces [] (idle 0) programs objects-Loads two-AreDistinct

-- a package that assigns by the tags
abbrev by_tag : Program → Option GoString → Option Program
by_tag p none = none
by_tag p (some tag) = some p

abbrev tagged : Objects
tagged = record objects {
  load_and_assign = λ spec m tags. ok (by_tag 5 tags.ingress, by_tag 6 tags.egress);
}

tagged-AssignsTagged : AssignsTagged tagged
tagged-AssignsTagged = record {
  no_ingress = λ spec m tags programs e q. ground (arith, e, q);
  no_egress = λ spec m tags programs e q. ground (arith, e, q);
}

tagged-Loads : Loads tagged [] (without_programs_map kernel)
unfolding prepare_memlock load_spec load_traffic_objects new_traffic_map
tagged-Loads = record { prepared = refl; loaded = refl }

start_untagged_example :
    let (r, s) = start_service half tagged (new_service two_interfaces [] (idle 0)) in
    (r ≡ ok tt)
    × (s.status.mode ≡ Mode.healthy)
    × (s.status.attached_interfaces ≡ [])
    × (s.status.failed_interfaces ≡ [])
    × (s.manager.net ≡ idle 0)
start_untagged_example =
    start_untagged half tagged two_interfaces [] (idle 0) (without_programs_map kernel)
      tagged-AssignsTagged tagged-Loads

-- an object file that is missing
abbrev missing : Objects
missing = record objects {
  stat = λ path. not_exist (driver 2);
  load_and_assign = λ spec m tags. err (driver 4);
}

missing-Loads : Loads missing [] (without_programs_map kernel)
unfolding new_traffic_map
missing-Loads = mock-Loads missing [] (driver 2) (driver 4) kernel refl refl refl refl

start_unloaded_example :
    let (r, s) = start_service half missing (new_service two_interfaces [] (idle 0)) in
    (r ≡ ok tt)
    × (s.status.mode ≡ Mode.healthy)
    × (s.status.attached_interfaces ≡ [])
    × (s.status.failed_interfaces ≡ [])
    × (s.manager.net ≡ idle 0)
start_unloaded_example = start_unloaded half missing two_interfaces [] (idle 0) kernel missing-Loads
