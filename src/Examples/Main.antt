-- ===== src/Examples/Main.antt =====
-- The program with two interfaces and a new database.
use wlt_traffic.Base.{
  ℕ_discrete, ◌≡◌, ◌↔◌, ◌≤◌, ◌||◌, ◌+◌, ◌*◌, refl, sym, subst, AreDistinct, ◌<◌, ◌^◌, true, false,
  none, [], codes, arith,
}
use wlt_traffic.Go.Blank.{is_blank, blank_from}
use wlt_traffic.Go.Address.{split_host_port, cut_last, cut_first, occurs}
use wlt_traffic.Go.Strconv.{atoi, digits, digits_from}
use wlt_traffic.Bootstrap.Checks.{
  new_validator, check_capabilities, validate_interface, check_qdisc_of,
}
use wlt_traffic.Go.Files.{file_of_size}
use wlt_traffic.Storage.Types.{GoString-discrete}
use wlt_traffic.Ebpf.Loader.{prepare_memlock, load_spec, load_traffic_objects, new_traffic_map}
use wlt_traffic.Ebpf.Attachment.{
  set_collection, attach_iface, attach_resolved, attach_option, attach_direction,
  set_direction_state, get_direction_state, get_iface_state, get_ingress, get_egress,
  new_attachment_manager, get_traffic_map,
}
use wlt_traffic.Ebpf.Attachment.Status.{is_iface_attached}
use wlt_traffic.Storage.Table.{find, upsert, delete_where, count_where}
use wlt_traffic.Storage.Engine.{begin_tx, exec_tx, commit, call, bind_counters}
use wlt_traffic.Go.Duration.{in_seconds, is_tickable}
use wlt_traffic.Storage.Listing.{list_checkpoints, scan_rows, select_checkpoints}
use wlt_traffic.Base.Sort.{sort_by, keep}
use wlt_traffic.Storage.Prune.{prune_daily, delete_older, rows_older}
use wlt_traffic.Error.{ok}
use wlt_traffic.Calendar.{current_date_utc}
use wlt_traffic.Config.{
  some_blank, check_address, is_loopback, check_rest, is_log_level, Config, load, load_from_file,
  parse, validate_config, default_config,
}
use wlt_traffic.Config.Laws.{IsValid}
use wlt_traffic.Bootstrap.{validate, check_iface, check_ifaces, startup_outcome}
use wlt_traffic.Storage.Open.{open_repository, init_schema, create_all}
use wlt_traffic.Runtime.Flush.{flush, new_flush_loop}
use wlt_traffic.Runtime.Flush.Account.{account_all}
use wlt_traffic.Runtime.Flush.Lifecycle.{restore_checkpoints, start_flush}
use wlt_traffic.Runtime.Housekeeping.{run_once, new_housekeeping_loop, start_housekeeping}
use wlt_traffic.Runtime.History.{empty_tables}
use wlt_traffic.Runtime.Service.{
  start_service, start_loaded, attach_each, attach_one, after_attach, note_results, settle,
  new_service,
}
use wlt_traffic.Runtime.Service.Report.{update_from_result, service_map, is_healthy, is_degraded}
use wlt_traffic.Ebpf.Attachment.History.{idle}
use wlt_traffic.Main.{serve, open_and_run, Host, Flags, App, Outcome, running, main, shut_down}
use wlt_traffic.Http.Server.{handle_healthz}
use wlt_traffic.Http.Server.Health.{healthz-flush}
use wlt_traffic.Main.Laws.{main_running, AreTickable}
use wlt_traffic.Main.Shutdown.{shut_down_flushes, shut_down_links}
use wlt_traffic.Examples.Data.{quiet, quiet-IsReliable, kernel, entries, new_loop}
use wlt_traffic.Examples.Flush.{kernel-Lists, new-Accepted}
use wlt_traffic.Examples.Attachment.{calm, calm-closes, same_order, same_order-perm}
use wlt_traffic.Examples.Service.{two_interfaces, two-AreDistinct, objects}

abbrev pub host : Host
host = record {
  files = record { read_file = λ path. ok []; unmarshal = λ text cfg. ok two_interfaces };
  system = record { uid = 0; stat_path = λ path. file_of_size 0; tc_qdisc_show = λ iface. none };
  kernel = calm;
  net = idle 0;
  objects = objects;
  engine = quiet;
  tables = λ path. empty_tables;
  early = false;
}

abbrev pub flags : Flags
flags = record { config_path = codes "/etc/traffic-count.json"; ebpf_object_path = [] }

-- a program that flushes a map with two entries
abbrev idle_app : App
idle_app = record {
  svc = new_service two_interfaces [] (idle 0);
  flush_loop = new_loop;
  housekeeping_loop = new_housekeeping_loop none two_interfaces.housekeeping_interval;
}

abbrev app_of : Outcome → App
app_of o = elim o [ running app ↦ app | _ ↦ idle_app ]

abbrev pub app : App
app = app_of (main host 0 1 flags)

pub app_runs : (main host 0 1 flags ≡ running app) × (app.svc.cfg ≡ two_interfaces)
unfolding main load load_from_file parse validate_config default_config some_blank is_blank
    blank_from check_address split_host_port cut_last cut_first occurs is_loopback atoi digits
    digits_from check_rest is_log_level GoString-discrete ℕ_discrete validate check_iface
    check_ifaces startup_outcome new_validator check_capabilities validate_interface check_qdisc_of
    serve start_service start_loaded new_service prepare_memlock load_spec load_traffic_objects
    new_traffic_map attach_each attach_one after_attach note_results settle set_collection
    attach_iface attach_resolved attach_option attach_direction set_direction_state
    get_direction_state get_iface_state get_ingress get_egress is_iface_attached
    new_attachment_manager find upsert open_and_run update_from_result is_healthy is_degraded
    service_map get_traffic_map open_repository init_schema create_all begin_tx exec_tx commit call
    new_flush_loop in_seconds is_tickable start_flush restore_checkpoints list_checkpoints scan_rows
    select_checkpoints sort_by keep new_housekeeping_loop start_housekeeping run_once prune_daily
    bind_counters delete_older rows_older delete_where count_where
app_runs = (refl, refl)

shut_down_flushes_example :
    (shut_down host same_order 3 0 1 idle_app).flush_loop.repo.committed
    ≡ account_all quiet (current_date_utc 0) entries empty_tables
shut_down_flushes_example =
    shut_down_flushes host same_order 3 0 1 idle_app kernel entries refl refl kernel-Lists
      (omega arith) quiet-IsReliable refl new-Accepted

app-AreDistinct : AreDistinct app.svc.cfg.interfaces
app-AreDistinct = subst (λ (c : Config). AreDistinct c.interfaces) (sym app_runs.1) two-AreDistinct

main_running_example :
    let cfg = app.svc.cfg in
    let status = app.svc.status in
    let result = (validate (new_validator host.system cfg)).0 in
    (load host.files flags.config_path ≡ ok cfg)
    × IsValid cfg
    × (status.mode ≡ result.mode)
    × (status.attached_interfaces ≡ result.attached_interfaces)
    × (status.failed_interfaces ≡ result.failed_interfaces)
    × (is_healthy app.svc || is_degraded app.svc ≡ true)
    × (host.system.uid ≡ 0)
    × AreTickable cfg
main_running_example = main_running host 0 1 flags app app_runs.0

shut_down_links_example : (shut_down host same_order 3 5 6 app).svc.manager.net.links ≡ []
shut_down_links_example =
    shut_down_links host same_order 3 5 6 app 0 1 0 flags same_order-perm app_runs.0 refl
      app-AreDistinct calm-closes

idle_healthy : is_healthy idle_app.svc ≡ true
unfolding is_healthy new_service
idle_healthy = refl

new_loop_tickable : is_tickable new_loop.interval ≡ true
unfolding is_tickable
new_loop_tickable = ground arith

healthz-flush_example :
    ((handle_healthz 7 idle_app.svc (flush quiet 3 0 1 new_loop).1).status ≡ 200)
    ↔ ((10_000_000_000 < 2 ^ 62) × (7 ≤ 1 + 10_000_000_000 * 2))
healthz-flush_example =
    healthz-flush quiet 3 0 1 new_loop kernel refl entries kernel-Lists (omega arith)
      quiet-IsReliable refl new-Accepted new_loop_tickable idle_app.svc idle_healthy 7
