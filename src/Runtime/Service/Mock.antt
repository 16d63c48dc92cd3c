-- ===== src/Runtime/Service/Mock.antt =====
-- A service in mock mode.
use wlt_traffic.Base.{◌≡◌, ◌∙◌, refl, ap, none, some, List, [], ◌∷◌, arith}
use wlt_traffic.Bootstrap.{Mode}
use wlt_traffic.Config.{Config}
use wlt_traffic.Error.{Error, ok, err}
use wlt_traffic.Storage.Types.{GoString}
use wlt_traffic.Ebpf.Link.{Kernel, Net}
use wlt_traffic.Ebpf.TrafficMap.{BpfMap}
use wlt_traffic.Ebpf.Attachment.{get_ingress, get_egress, is_mock_mode, set_collection}
use wlt_traffic.Go.Files.{not_exist}
use wlt_traffic.Ebpf.Loader.{
  Objects, new_loader, prepare_memlock, load_traffic_objects, mock_spec, objs_tags, new_traffic_map,
  is_mock, collection_of,
}
use wlt_traffic.Ebpf.Loader.Untagged.{without_programs_map}
use wlt_traffic.Ebpf.Loader.Mock.{load_spec-missing}
use wlt_traffic.Runtime.Service.{
  Attaching, new_service, attach_one, attach_each, start_service, settle,
}
use wlt_traffic.Runtime.Service.Start.{Loads, begun, start-settle}

-- without programs no interface is touched
attach_one-mock :
    (k : Kernel) (name : GoString) (st : Attaching)
    → st.manager.collection ≡ some (collection_of (none, none))
    → attach_one k name st ≡ st
unfolding attach_one get_ingress get_egress is_mock_mode
attach_one-mock k name st h = ground (arith, h)

attach_each-mock :
    (k : Kernel) (names : List GoString) (st : Attaching)
    → st.manager.collection ≡ some (collection_of (none, none))
    → attach_each k names st ≡ st
unfolding attach_each
attach_each-mock k [] st h = refl
attach_each-mock k (name ∷ names) st h =
    ap (attach_each k names) (attach_one-mock k name st h) ∙ attach_each-mock k names st h

pub mock-Loads :
    (o : Objects) (path : GoString) (x y : Error) (m : BpfMap)
    → o.remove_memlock ≡ none
    → o.stat (new_loader path).obj_path ≡ not_exist x
    → new_traffic_map o ≡ ok m
    → o.load_and_assign mock_spec m objs_tags ≡ err y
    → Loads o path (without_programs_map m)
unfolding prepare_memlock load_traffic_objects is_mock
mock-Loads o path x y m memlock missing made unloaded = record {
  prepared = ground (arith, memlock);
  loaded = ground (arith, load_spec-missing o (new_loader path) x missing, made, unloaded, missing);
}

-- If nothing but the map is loaded, `Start` succeeds with the mode healthy, whichever interfaces are
-- configured, and touches none of them.
pub start_unloaded :
    (k : Kernel) (o : Objects) (cfg : Config) (path : GoString) (net : Net) (m : BpfMap)
    → Loads o path (without_programs_map m)
    → let (r, s) = start_service k o (new_service cfg path net) in
      (r ≡ ok tt)
      × (s.status.mode ≡ Mode.healthy)
      × (s.status.attached_interfaces ≡ [])
      × (s.status.failed_interfaces ≡ [])
      × (s.manager.net ≡ net)
unfolding settle new_service set_collection
start_unloaded k o cfg path net m loads =
    let st = begun net (without_programs_map m) in
    rw
      (
        start-settle k o cfg path net (without_programs_map m) loads,
        attach_each-mock k cfg.interfaces st refl,
      )
      (refl, refl, refl, refl, refl)
