-- ===== src/Ebpf/Loader/Mock.antt =====
-- The mock mode of the loader.
use wlt_traffic.Base.{◌≡◌, true, arith}
use wlt_traffic.Error.{Error, succeeded, ok}
use wlt_traffic.Ebpf.TrafficMap.{BpfMap}
use wlt_traffic.Go.Files.{not_exist}
use wlt_traffic.Ebpf.Loader.{
  Objects, Loader, is_mock, load_spec, mock_spec, new_traffic_map, load_traffic_objects,
}

-- In mock mode the loader succeeds wherever the map can be made, whatever the object file holds.
pub mock_loads :
    (o : Objects) (l : Loader) (m : BpfMap)
    → is_mock o l ≡ true
    → new_traffic_map o ≡ ok m
    → succeeded (load_traffic_objects o l) ≡ true
unfolding load_traffic_objects load_spec
mock_loads o l m mock made = ground (arith, mock, made)

-- The error that the object file is not found is never returned: such a file means mock mode.
pub load_spec-missing :
    (o : Objects) (l : Loader) (x : Error)
    → o.stat l.obj_path ≡ not_exist x
    → load_spec o l ≡ ok mock_spec
unfolding load_spec is_mock
load_spec-missing o l x e = ground (arith, e)
