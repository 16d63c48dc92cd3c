-- ===== src/Runtime/Service/Start.antt =====
-- `Start` of a new service.
use wlt_traffic.Base.{
  ◌≡◌, inl, inr, refl, ap, not, ◌&&◌, ◌||◌, some, List, [], ◌∷◌, All, AreDistinct, arith,
  if◌then◌else◌, Bool-cases,
}
use wlt_traffic.Base.Sort.{keep}
use wlt_traffic.Bootstrap.{Mode}
use wlt_traffic.Config.{Config}
use wlt_traffic.Error.{Result, ok, succeeded}
use wlt_traffic.Storage.Types.{GoString}
use wlt_traffic.Storage.Table.{find}
use wlt_traffic.Ebpf.Link.{Direction, direction_ingress, direction_egress, Kernel, Net}
use wlt_traffic.Ebpf.Iface.{is_attached, has_failed, no_direction_state}
use wlt_traffic.Ebpf.TrafficMap.{TrafficMap}
use wlt_traffic.Ebpf.Attachment.{Collection, set_collection, new_attachment_manager}
use wlt_traffic.Ebpf.Attachment.Status.{is_iface_attached}
use wlt_traffic.Ebpf.Attachment.Slots.{Slot, view}
use wlt_traffic.Ebpf.Loader.{Objects, new_loader, prepare_memlock, load_traffic_objects}
use wlt_traffic.Runtime.Service.{
  Service, Attaching, new_service, attach_each, start_loaded, start_service, settle, is_empty,
  with_attached, contains,
}
use wlt_traffic.Runtime.Service.Lists.{iface_failed, attach_each-lists, Ready}

-- the programs and the map are there
pub record Loads (o : Objects) (path : GoString) (objects : Collection × TrafficMap) : Type 0 where
  pub prepared : prepare_memlock o (new_loader path) ≡ ok tt
  pub loaded : load_traffic_objects o (new_loader path) ≡ ok objects

abbrev pub begun : Net → Collection × TrafficMap → Attaching
begun net (coll, tm) = record {
  manager = set_collection (some coll) (some tm) (new_attachment_manager net);
  attach_errors = [];
  attached = [];
  failed = [];
}

pub begun-view :
    (net : Net) (objects : Collection × TrafficMap) (s : Slot)
    → view (begun net objects).manager s ≡ no_direction_state
unfolding view set_collection new_attachment_manager find
begun-view net objects s = refl

pub begun-Ready :
    (k : Kernel) (net : Net) (objects : Collection × TrafficMap) (names : List GoString)
    → All (Ready k (begun net objects)) names
unfolding contains
begun-Ready k net objects [] = tt
begun-Ready k net objects (name ∷ names) =
    let same = λ (d : Direction). begun-view net objects (name, d) in
    (
      (
        refl,
        (ap is_attached (same direction_ingress), ap has_failed (same direction_ingress)),
        (ap is_attached (same direction_egress), ap has_failed (same direction_egress)),
      ),
      begun-Ready k net objects names,
    )

-- what a status says of the configured interfaces is what the manager shows of them
abbrev pub IsShown : Config → Result (Unit {0}) × Service → Type 0
IsShown cfg (r, s) =
    let up = keep (is_iface_attached s.manager) cfg.interfaces in
    let down = keep (iface_failed s.manager) cfg.interfaces in
    let accepted = is_empty down || (not (is_empty up) && cfg.allow_partial) in
    let partly = if accepted then Mode.degraded else Mode.failed in
    (s.status.attached_interfaces ≡ up)
    × (s.status.failed_interfaces ≡ down)
    × (s.status.mode ≡ (if is_empty down then Mode.healthy else partly))
    × (succeeded r ≡ accepted)

module _ (k : Kernel) (o : Objects) (cfg : Config) (path : GoString) (net : Net)
    (objects : Collection × TrafficMap) (loads : Loads o path objects) where
  abbrev run : Result (Unit {0}) × Service
  run = start_service k o (new_service cfg path net)

  abbrev pub attached_by : Attaching
  attached_by = attach_each k cfg.interfaces (begun net objects)

  pub start-settle : run ≡ settle (with_attached attached_by (new_service cfg path net))
  unfolding start_service start_loaded new_service
  start-settle = rw (loads.prepared, loads.loaded) refl

  settle-status :
      (st : Attaching)
      → st.attached ≡ keep (is_iface_attached st.manager) cfg.interfaces
      → st.failed ≡ keep (iface_failed st.manager) cfg.interfaces
      → IsShown cfg (settle (with_attached st (new_service cfg path net)))
  unfolding settle new_service
  settle-status st a f = elim (Bool-cases (is_empty st.failed)) [
    | inl e ↦ ground (arith, a, f, e)
    | inr e ↦ elim (Bool-cases (is_empty st.attached)) [
      | inl c ↦ ground (arith, a, f, e, c)
      | inr c ↦ ground (arith, a, f, e, c)
    ]
  ]

  -- If the programs and the map are loaded and no interface is configured twice: after `Start` of a
  -- new service, the lists of the status are the configured interfaces that the manager shows as
  -- attached in some direction and as failed in some direction. The mode is healthy if none
  -- failed, degraded if some are attached and the configuration allows that, and failed otherwise.
  -- `Start` returns an error exactly in the last case.
  pub start_status :
      AreDistinct cfg.interfaces → IsShown cfg (start_service k o (new_service cfg path net))
  start_status distinct =
      let (a, f) =
        attach_each-lists k cfg.interfaces (begun net objects) distinct
          (begun-Ready k net objects cfg.interfaces) in
      rw start-settle (settle-status attached_by a f)
