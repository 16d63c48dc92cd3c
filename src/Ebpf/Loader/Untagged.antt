-- ===== src/Ebpf/Loader/Untagged.antt =====
-- What the loader gets for its struct, whose fields have no tags.
use wlt_traffic.Base.{◌≡◌, refl, ap, none, some, Option, arith}
use wlt_traffic.Error.{Result, ok, err, chain, staged, creating_traffic_map}
use wlt_traffic.Ebpf.Link.{Program}
use wlt_traffic.Ebpf.TrafficMap.{BpfMap, TrafficMap}
use wlt_traffic.Ebpf.Attachment.{Collection}
use wlt_traffic.Ebpf.Loader.{
  Objects, Loader, CollectionSpec, AssignsTagged, load_spec, new_traffic_map, load_traffic_objects,
  assigned_or_mock, collection_of, objs_tags,
}

abbrev pub without_programs_map : BpfMap → Collection × TrafficMap
without_programs_map m = (collection_of (none, none), record { m = some m })

module _ (o : Objects) (documented : AssignsTagged o) (l : Loader) where
  assigned-none :
      (spec : CollectionSpec) (m : BpfMap) (r : Result (Option Program × Option Program))
      (programs : Option Program × Option Program)
      → o.load_and_assign spec m objs_tags ≡ r
      → assigned_or_mock o l r ≡ ok programs
      → programs ≡ (none, none)
  assigned-none spec m (ok found) programs e q =
      let i = documented.no_ingress spec m objs_tags found refl e in
      let g = documented.no_egress spec m objs_tags found refl e in ground (arith, i, g, q)
  assigned-none spec m (err x) programs e q = ground (arith, q)

  abbrev pub Bare : Collection × TrafficMap → Type 0
  Bare objects = (m : BpfMap) × (objects ≡ without_programs_map m)

  programs-Bare :
      (m : BpfMap) (r : Result (Option Program × Option Program))
      (objects : Collection × TrafficMap)
      → ((programs : Option Program × Option Program) → r ≡ ok programs → programs ≡ (none, none))
      → chain r (λ programs. ok (collection_of programs, record { m = some m })) ≡ ok objects
      → Bare objects
  programs-Bare m (ok programs) objects bare e =
      (m, ground (arith, e, ap collection_of (bare programs refl)))
  programs-Bare m (err x) objects bare e = ground (arith, e)

  map-Bare :
      (spec : CollectionSpec) (r : Result BpfMap) (objects : Collection × TrafficMap)
      → chain r (λ m.
        chain
          (assigned_or_mock o l (o.load_and_assign spec m objs_tags))
          (λ programs. ok (collection_of programs, record { m = some m })))
        ≡ ok objects
      → Bare objects
  map-Bare spec (ok m) objects e =
      let found = o.load_and_assign spec m objs_tags in
      programs-Bare m (assigned_or_mock o l found) objects
        (λ programs. assigned-none spec m found programs refl) e
  map-Bare spec (err x) objects e = ground (arith, e)

  spec-Bare :
      (r : Result CollectionSpec) (objects : Collection × TrafficMap)
      → chain r (λ spec. chain (staged creating_traffic_map (new_traffic_map o)) (λ m.
        chain
          (assigned_or_mock o l (o.load_and_assign spec m objs_tags))
          (λ programs. ok (collection_of programs, record { m = some m }))))
        ≡ ok objects
      → Bare objects
  spec-Bare (ok spec) objects e =
      map-Bare spec (staged creating_traffic_map (new_traffic_map o)) objects e
  spec-Bare (err x) objects e = ground (arith, e)

  -- If fields without a tag stay nil, a loader that succeeds gives the map and no program, whatever
  -- the object file holds.
  pub load_traffic_objects-Bare :
      (objects : Collection × TrafficMap) → load_traffic_objects o l ≡ ok objects → Bare objects
  unfolding load_traffic_objects
  load_traffic_objects-Bare objects e = spec-Bare (load_spec o l) objects e
