-- ===== src/Ebpf/Loader.antt =====
-- internal/ebpf/loader.go: the loader of the programs, with its mock mode. The object file and what
-- cilium's package ebpf makes of it are parameters.
pub mod Mock
pub mod Untagged
use wlt_traffic.Base.{
  ℕ, Bool, true, false, Option, none, some, List, [], ◌∷◌, codes, leb, ◌≡◌, if◌then◌else◌,
}
use wlt_traffic.Error.{
  Error, Result, ok, err, wrapped, chain, staged, done, creating_map, creating_traffic_map,
  loading_collection, object_not_found, loading_spec, adjusting_memlock,
}
use wlt_traffic.Go.Files.{Stat, not_exist, unreadable, file_of_size}
use wlt_traffic.Storage.Types.{GoString}
use wlt_traffic.Ebpf.TrafficMap.{BpfMap, TrafficMap}
use wlt_traffic.Ebpf.Link.{Direction, direction_ingress, direction_egress, Program}
use wlt_traffic.Ebpf.Attachment.{Collection}

-- the fields of `ebpf.MapSpec` and `ebpf.ProgramSpec` that the source sets; the types of the maps and
-- of the programs are always Hash and SchedCLS
pub record MapSpec : Type 0 where
  pub name : GoString
  pub key_size : ℕ
  pub value_size : ℕ
  pub max_entries : ℕ

pub record ProgramSpec : Type 0 where
  pub name : GoString
  pub attach_type : Direction

pub record CollectionSpec : Type 0 where
  pub maps : List MapSpec
  pub programs : List ProgramSpec

-- the `ebpf` tags of the fields `ingress` and `egress` of the struct for `LoadAndAssign`
pub record FieldTags : Type 0 where
  pub ingress : Option GoString
  pub egress : Option GoString

-- what the loader calls
pub record Objects : Type 0 where
  pub stat : GoString → Stat
  -- `rlimit.RemoveMemlock`
  pub remove_memlock : Option Error
  -- `ebpf.LoadCollectionSpec`
  pub load_collection_spec : GoString → Result CollectionSpec
  -- `ebpf.NewMap`
  pub new_map : MapSpec → Result BpfMap
  -- `LoadAndAssign` with the map replaced: the two fields of a struct of nils with these tags, after
  pub load_and_assign :
      CollectionSpec → BpfMap → FieldTags → Result (Option Program × Option Program)

-- What `LoadAndAssign` documents: a field is updated if it has a tag, so one without stays nil.
pub record AssignsTagged (o : Objects) : Type 0 where
  pub no_ingress :
      (spec : CollectionSpec) (m : BpfMap) (tags : FieldTags)
      (programs : Option Program × Option Program)
      → tags.ingress ≡ none
      → o.load_and_assign spec m tags ≡ ok programs
      → programs.0 ≡ none
  pub no_egress :
      (spec : CollectionSpec) (m : BpfMap) (tags : FieldTags)
      (programs : Option Program × Option Program)
      → tags.egress ≡ none
      → o.load_and_assign spec m tags ≡ ok programs
      → programs.1 ≡ none

pub record Loader : Type 0 where
  pub obj_path : GoString
  pub btf_enabled : Bool

abbrev pub default_object_path : GoString
default_object_path = codes "/usr/lib/traffic-count/traffic_count_bpfel.o"

unfoldable pub new_loader : GoString → Loader
new_loader [] = record { obj_path = default_object_path; btf_enabled = true }
new_loader (c ∷ path) = record { obj_path = c ∷ path; btf_enabled = true }

-- `TrafficMapSpec` of ebpf.go
unfoldable pub traffic_map_spec : MapSpec
traffic_map_spec = record {
  name = codes "traffic_map";
  key_size = 12;
  value_size = 48;
  max_entries = 262144;
}

unfoldable pub mock_spec : CollectionSpec
mock_spec = record {
  maps =
      record { name = codes "traffic_map"; key_size = 10; value_size = 48; max_entries = 262144 }
      ∷ [];
  programs =
      record { name = codes "handle_ingress"; attach_type = direction_ingress }
      ∷ record { name = codes "handle_egress"; attach_type = direction_egress }
      ∷ [];
}

-- the struct `objs`
abbrev pub objs_tags : FieldTags
objs_tags = record { ingress = none; egress = none }

abbrev pub collection_of : Option Program × Option Program → Collection
collection_of (ingress, egress) = record { handle_ingress = ingress; handle_egress = egress }

module _ (o : Objects) where
  unfoldable pub prepare_memlock : Loader → Result (Unit {0})
  prepare_memlock l = staged adjusting_memlock (done o.remove_memlock)

  -- `isMockMode`: no file, or one of at most 100 bytes
  unfoldable pub is_mock : Loader → Bool
  is_mock l = elim (o.stat l.obj_path) [
    | not_exist x ↦ true
    | unreadable x ↦ true
    | file_of_size n ↦ leb n 100
  ]

  abbrev pub spec_or_mock : Loader → Result CollectionSpec → Result CollectionSpec
  spec_or_mock l (ok spec) = ok spec
  spec_or_mock l (err x) = if is_mock l then ok mock_spec else err (wrapped loading_spec x)

  unfoldable pub load_spec : Loader → Result CollectionSpec
  load_spec l = elim (o.stat l.obj_path) [
    | not_exist x ↦ if is_mock l then ok mock_spec else err (wrapped object_not_found x)
    | unreadable x ↦ spec_or_mock l (o.load_collection_spec l.obj_path)
    | file_of_size n ↦ spec_or_mock l (o.load_collection_spec l.obj_path)
  ]

  -- `NewTrafficMap` of map.go
  unfoldable pub new_traffic_map : Result BpfMap
  new_traffic_map = staged creating_map (o.new_map traffic_map_spec)

  abbrev pub assigned_or_mock :
      Loader → Result (Option Program × Option Program) → Result (Option Program × Option Program)
  assigned_or_mock l (ok programs) = ok programs
  assigned_or_mock l (err x) =
      if is_mock l then ok (none, none) else err (wrapped loading_collection x)

  unfoldable pub load_traffic_objects : Loader → Result (Collection × TrafficMap)
  load_traffic_objects l = chain (load_spec l) (λ spec.
      chain (staged creating_traffic_map new_traffic_map) (λ m.
        chain (assigned_or_mock l (o.load_and_assign spec m objs_tags))
          (λ programs. ok (collection_of programs, record { m = some m }))))
