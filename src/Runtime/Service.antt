-- ===== src/Runtime/Service.antt =====
-- `Service` of internal/runtime/runtime.go: it loads the programs, attaches them to the configured
-- interfaces, and keeps the status. What it prints is left out.

pub mod Report
pub mod Lists
pub mod Start
pub mod Untagged
pub mod Shutdown
pub mod Stopped
pub mod Mock
use wlt_traffic.Base.{
  ℕ, Bool, true, false, not, ◌&&◌, ◌||◌, Option, none, some, List, [], ◌∷◌, ◌++◌, length, ite,
  if◌then◌else◌,
}
use wlt_traffic.Error.{
  Error, Result, ok, err, chain, staged, all_failed, partial_failure, preparing_memlock,
  loading_objects,
}
use wlt_traffic.Exec.{Exec, lift, ◌>>=◌, ◌>>◌}
use wlt_traffic.Config.{Config}
use wlt_traffic.Bootstrap.{Mode, StartupResult}
use wlt_traffic.Storage.Types.{GoString, GoString-discrete}
use wlt_traffic.Ebpf.TrafficMap.{TrafficMap}
use wlt_traffic.Ebpf.Link.{Direction, Kernel, Net}
use wlt_traffic.Ebpf.Iface.{DirectionState, IfaceState, AttachState, has_failed}
use wlt_traffic.Ebpf.Loader.{Objects, Loader, new_loader, prepare_memlock, load_traffic_objects}
use wlt_traffic.Ebpf.Attachment.{
  AttachmentManager, AttachResult, AttachOptions, result_failed, Collection, new_attachment_manager,
  attach_iface, set_collection, get_ingress, get_egress, is_mock_mode, is_nil, get_iface_state,
  change_iface, get_traffic_map,
}
use wlt_traffic.Ebpf.Attachment.Detach.{detach_all}
use wlt_traffic.Ebpf.Attachment.Status.{is_iface_attached}

-- the entries of `AttachErrors`, whose texts are not modelled
pub data AttachError : Type 0 where
  no_programs : GoString → AttachError
  attach_error : Error → AttachError
  direction_error : GoString → Direction → Error → AttachError

pub record Status : Type 0 where
  pub mode : Mode
  pub total_interfaces : ℕ
  pub attached_interfaces : List GoString
  pub failed_interfaces : List GoString
  pub last_flush_timestamp : ℕ
  pub database_path : GoString
  pub attach_errors : List AttachError

pub record Service : Type 0 where
  pub cfg : Config
  pub status : Status
  pub loader : Loader
  pub manager : AttachmentManager

-- `NewService(cfg, ebpfPath)`, with the kernel's side of the manager
unfoldable pub new_service : Config → GoString → Net → Service
unfolding new_loader new_attachment_manager
new_service cfg ebpf_path net = record {
  cfg = cfg;
  status = record {
    mode = Mode.healthy;
    total_interfaces = length cfg.interfaces;
    attached_interfaces = [];
    failed_interfaces = [];
    last_flush_timestamp = 0;
    database_path = cfg.database_path;
    attach_errors = [];
  };
  loader = new_loader ebpf_path;
  manager = new_attachment_manager net;
}

unfoldable pub contains : List GoString → GoString → Bool
contains [] item = false
contains (s ∷ slice) item = ite (GoString-discrete s item) true false || contains slice item

-- the variables of the loop of `Start`
pub record Attaching : Type 0 where
  pub manager : AttachmentManager
  pub attach_errors : List AttachError
  pub attached : List GoString
  pub failed : List GoString

abbrev error_of : GoString → AttachResult → List AttachError
error_of name r = elim r.error [ none ↦ [] | some x ↦ direction_error name r.direction x ∷ [] ]

-- a round of `for _, res := range results`
abbrev pub note_result : GoString → AttachResult → Attaching → Attaching
note_result name r st =
    if result_failed r
    then record st {
      attach_errors = st.attach_errors ++ error_of name r;
      failed = if contains st.failed name then st.failed else st.failed ++ (name ∷ []);
    }
    else st

unfoldable pub note_results : GoString → List AttachResult → Attaching → Attaching
note_results name [] st = st
note_results name (r ∷ results) st = note_results name results (note_result name r st)

-- the end of a round: `if ingressOK || egressOK`
abbrev pub note_state : GoString → Attaching → Attaching
note_state name st =
    if is_iface_attached st.manager name
    then record st { attached = st.attached ++ (name ∷ []) }
    else st

-- the rest of a round, after `AttachIface`
unfoldable pub after_attach :
    GoString → Attaching → Result (List AttachResult) × AttachmentManager → Attaching
unfolding note_results
after_attach name st (err x, m) = record st {
  manager = m;
  attach_errors = st.attach_errors ++ (attach_error x ∷ []);
  failed = st.failed ++ (name ∷ []);
}
after_attach name st (ok results, m) =
    note_state name (note_results name results (record st { manager = m }))

abbrev pub without_programs : GoString → Attaching → Attaching
without_programs name st = if is_mock_mode st.manager then st else record st {
  attach_errors = st.attach_errors ++ (no_programs name ∷ []);
  failed = st.failed ++ (name ∷ []);
}

abbrev pub options : AttachmentManager → AttachOptions
options m = record { ingress = get_ingress m; egress = get_egress m }

abbrev pub no_options : AttachmentManager → Bool
no_options m = is_nil (get_ingress m) && is_nil (get_egress m)

module _ (k : Kernel) where
  -- a round of `for _, ifaceName := range s.cfg.Interfaces`
  unfoldable pub attach_one : GoString → Attaching → Attaching
  unfolding after_attach
  attach_one name st =
      if no_options st.manager
      then without_programs name st
      else after_attach name st (attach_iface k name (options st.manager) st.manager)

  unfoldable pub attach_each : List GoString → Attaching → Attaching
  attach_each [] st = st
  attach_each (name ∷ names) st = attach_each names (attach_one name st)

abbrev pub is_empty : List GoString → Bool
is_empty [] = true
is_empty (s ∷ slice) = false

abbrev pub in_mode : Mode → Service → Service
in_mode mode s = record s { status = record s.status { mode = mode } }

-- the end of `Start`, after the loop
unfoldable pub settle : Service → Result (Unit {0}) × Service
settle s =
    if is_empty s.status.attached_interfaces && not (is_empty s.status.failed_interfaces)
    then (err all_failed, in_mode Mode.failed s)
    else if is_empty s.status.failed_interfaces
    then (ok tt, s)
    else if s.cfg.allow_partial
    then (ok tt, in_mode Mode.degraded s)
    else (err partial_failure, in_mode Mode.failed s)

abbrev pub with_attached : Attaching → Service → Service
with_attached st s = record s {
  manager = st.manager;
  status = record s.status {
    attached_interfaces = st.attached;
    failed_interfaces = st.failed;
    attach_errors = st.attach_errors;
  };
}

-- `ifaceState.Ingress.State = StateDetached`, …, on the entry that is there
abbrev pub reset : DirectionState → DirectionState
reset d = record d { state = AttachState.detached; link = none }

abbrev pub reset_iface : GoString → AttachmentManager → AttachmentManager
reset_iface name m = elim (get_iface_state m name) [
  | none ↦ m
  | some i ↦
      change_iface name (λ s. record s { ingress = reset s.ingress; egress = reset s.egress }) m
]

unfoldable pub reset_each : List GoString → AttachmentManager → AttachmentManager
reset_each [] m = m
reset_each (name ∷ names) m = reset_each names (reset_iface name m)

module _ (k : Kernel) where
  -- the rest of `Start`, with the objects loaded
  unfoldable pub start_loaded : Collection × TrafficMap → Service → Result (Unit {0}) × Service
  start_loaded (coll, tm) s =
      let begun : Attaching = record {
        manager = set_collection (some coll) (some tm) s.manager;
        attach_errors = [];
        attached = [];
        failed = [];
      } in
      settle (with_attached (attach_each k s.cfg.interfaces begun) s)

  unfoldable pub start_service : Objects → Exec Service (Unit {0})
  start_service o s =
      (do
        lift (staged preparing_memlock (prepare_memlock o s.loader))
        objects ← lift (staged loading_objects (load_traffic_objects o s.loader))
        start_loaded objects)
        s

  -- `Stop()`, which returns no error; `order` is that of `DetachAll`
  unfoldable pub stop_service : (List GoString → List GoString) → Service → Service
  stop_service order s =
      let m = reset_each s.cfg.interfaces (detach_all k order s.manager).1 in
      record s {
        manager = m;
        status = record s.status { attached_interfaces = []; mode = Mode.failed };
      }
