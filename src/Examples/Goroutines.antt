-- ===== src/Examples/Goroutines.antt =====
-- The program on a new database, up to the write of the first entry.
use wlt_traffic.Base.{ℕ_discrete, ◌≡◌, refl, some, arith}
use wlt_traffic.Calendar.{current_date_utc, date_of_day}
use wlt_traffic.Runtime.Flush.{FlushLoop}
use wlt_traffic.Runtime.Flush.Account.{entry_key, entry_raw}
use wlt_traffic.Runtime.Flush.Rows.{checkpoint_row, daily_row}
use wlt_traffic.Runtime.Flush.Synced.{counters_of}
use wlt_traffic.Runtime.History.Invariant.{Dated}
use wlt_traffic.Runtime.Interleave.{
  FlushPoint, flush_begin, flush_move, flush_write, flushing, Process, move_loop, ticked,
  loop_moved, Run, here, next,
}
use wlt_traffic.Main.Goroutines.{ticking, BriskDuring, running_bucket}
use wlt_traffic.Examples.Data.{quiet, quiet-IsExact, kernel, entry_1}
use wlt_traffic.Examples.Main.{host, flags, app, app_runs}
use wlt_traffic.Base.Sort.{keep, sort_by}
use wlt_traffic.Bootstrap.{check_iface, check_ifaces, startup_outcome, validate}
use wlt_traffic.Bootstrap.Checks.{
  check_capabilities, check_qdisc_of, new_validator, validate_interface,
}
use wlt_traffic.Config.{
  check_address, check_rest, default_config, is_log_level, is_loopback, load, load_from_file, parse,
  some_blank, validate_config,
}
use wlt_traffic.Ebpf.Attachment.{
  attach_direction, attach_iface, attach_option, attach_resolved, get_direction_state, get_egress,
  get_iface_state, get_ingress, get_traffic_map, new_attachment_manager, set_collection,
  set_direction_state,
}
use wlt_traffic.Ebpf.Attachment.Status.{is_iface_attached}
use wlt_traffic.Ebpf.Loader.{load_spec, load_traffic_objects, new_traffic_map, prepare_memlock}
use wlt_traffic.Ebpf.TrafficMap.{iterate, lookup, next as next_entry, next_key}
use wlt_traffic.Go.Address.{cut_first, cut_last, occurs, split_host_port}
use wlt_traffic.Go.Blank.{blank_from, is_blank}
use wlt_traffic.Go.Duration.{in_seconds, is_tickable}
use wlt_traffic.Go.Strconv.{atoi, digits, digits_from}
use wlt_traffic.Main.{main, open_and_run, serve}
use wlt_traffic.Runtime.Flush.{flush_delta, new_flush_loop, persist_all}
use wlt_traffic.Runtime.Flush.Lifecycle.{restore_checkpoints, start_flush}
use wlt_traffic.Runtime.Housekeeping.{new_housekeeping_loop, run_once, start_housekeeping}
use wlt_traffic.Runtime.Service.{
  after_attach, attach_each, attach_one, new_service, note_results, settle, start_loaded,
  start_service,
}
use wlt_traffic.Runtime.Service.Report.{is_degraded, is_healthy, service_map, update_from_result}
use wlt_traffic.Storage.Engine.{begin_tx, bind_counters, call, commit, exec_tx}
use wlt_traffic.Storage.Listing.{list_checkpoints, scan_rows, select_checkpoints}
use wlt_traffic.Storage.Open.{create_all, init_schema, open_repository}
use wlt_traffic.Storage.Prune.{delete_older, prune_daily, rows_older}
use wlt_traffic.Storage.Query.{get_checkpoint}
use wlt_traffic.Storage.Repository.{add_daily, add_total, put_checkpoint}
use wlt_traffic.Storage.Table.{count_where, delete_where, find, upsert}
use wlt_traffic.Storage.Types.{DailyKey-discrete, GoString-discrete, RecordKey-discrete}
use wlt_traffic.Runtime.Interleave.Points.{IsRecent}
use wlt_traffic.Examples.Interleave.{begun_IsBrisk, resting_IsBrisk, recent_0}

abbrev main_loop : FlushLoop
main_loop = app.flush_loop

abbrev ticked_process : Process
ticked_process = record (ticking 0 main_loop) { loop = flushing (flush_begin 0 main_loop) }

abbrev found_process : Process
found_process = move_loop quiet kernel (flush_begin 0 main_loop) ticked_process

abbrev found_point : FlushPoint
found_point = (flush_move quiet kernel 0 (flush_begin 0 main_loop) main_loop).0

abbrev checked_process : Process
checked_process = move_loop quiet kernel found_point found_process

abbrev checked_point : FlushPoint
checked_point = (flush_move quiet kernel 0 found_point found_process.flush_loop).0

abbrev written_process : Process
written_process = move_loop quiet kernel checked_point checked_process

main_run : Run quiet (ticking 0 main_loop) written_process
unfolding move_loop
main_run =
    next
      (next (next (next here (ticked refl)) (loop_moved kernel (flush_begin 0 main_loop) refl))
        (loop_moved kernel found_point refl))
      (loop_moved kernel checked_point refl)

written_row :
    checkpoint_row written_process.flush_loop.repo.committed (entry_key entry_1)
    ≡ some (record { date_utc = current_date_utc 0; last = entry_raw entry_1 })
unfolding main load load_from_file parse validate_config default_config some_blank is_blank
    blank_from check_address split_host_port cut_last cut_first occurs is_loopback atoi digits
    digits_from check_rest is_log_level GoString-discrete ℕ_discrete validate check_iface
    check_ifaces startup_outcome new_validator check_capabilities validate_interface check_qdisc_of
    serve start_service start_loaded new_service prepare_memlock load_spec load_traffic_objects
    new_traffic_map attach_each attach_one after_attach note_results settle set_collection
    attach_iface attach_resolved attach_option attach_direction set_direction_state
    get_direction_state get_iface_state get_ingress get_egress is_iface_attached
    new_attachment_manager find upsert open_and_run update_from_result is_healthy is_degraded
    service_map get_traffic_map open_repository init_schema create_all begin_tx exec_tx commit call
    new_flush_loop in_seconds is_tickable start_flush restore_checkpoints list_checkpoints scan_rows
    select_checkpoints sort_by keep new_housekeeping_loop start_housekeeping run_once prune_daily
    bind_counters delete_older rows_older delete_where count_where move_loop flush_begin flush_move
    flush_write next_entry iterate get_checkpoint next_key lookup flush_delta persist_all
    put_checkpoint add_daily add_total RecordKey-discrete DailyKey-discrete current_date_utc
written_row = refl

points_are_young :
    IsRecent 0 (flush_begin 0 main_loop) × IsRecent 0 found_point × IsRecent 0 checked_point
unfolding main load load_from_file parse validate_config default_config some_blank is_blank
    blank_from check_address split_host_port cut_last cut_first occurs is_loopback atoi digits
    digits_from check_rest is_log_level GoString-discrete ℕ_discrete validate check_iface
    check_ifaces startup_outcome new_validator check_capabilities validate_interface check_qdisc_of
    serve start_service start_loaded new_service prepare_memlock load_spec load_traffic_objects
    new_traffic_map attach_each attach_one after_attach note_results settle set_collection
    attach_iface attach_resolved attach_option attach_direction set_direction_state
    get_direction_state get_iface_state get_ingress get_egress is_iface_attached
    new_attachment_manager find upsert open_and_run update_from_result is_healthy is_degraded
    service_map get_traffic_map open_repository init_schema create_all begin_tx exec_tx commit call
    new_flush_loop in_seconds is_tickable start_flush restore_checkpoints list_checkpoints scan_rows
    select_checkpoints sort_by keep new_housekeeping_loop start_housekeeping run_once prune_daily
    bind_counters delete_older rows_older delete_where count_where move_loop flush_begin flush_move
    flush_write next_entry iterate get_checkpoint next_key lookup flush_delta persist_all
    put_checkpoint add_daily add_total RecordKey-discrete DailyKey-discrete
points_are_young = (recent_0, recent_0, recent_0)

main_run-BriskDuring : BriskDuring main_run
unfolding main_run move_loop
main_run-BriskDuring =
    let (r, r', r'') = points_are_young in
    (
      begun_IsBrisk checked_process checked_point refl refl r'',
      (
        begun_IsBrisk found_process found_point refl refl r',
        (
          begun_IsBrisk ticked_process (flush_begin 0 main_loop) refl refl r,
          (resting_IsBrisk (ticking 0 main_loop) (λ point q. ground (arith, q)) refl, tt),
        ),
      ),
    )

written_before_10000 : Dated written_process.now
unfolding date_of_day move_loop
written_before_10000 = omega arith

written_today : current_date_utc 0 ≡ current_date_utc written_process.now
unfolding move_loop
written_today = refl

running_bucket_example :
    counters_of (
      daily_row written_process.flush_loop.repo.committed
        (entry_key entry_1)
        (current_date_utc written_process.now))
    ≡ entry_raw entry_1
running_bucket_example =
    running_bucket host 0 1 flags app quiet-IsExact app_runs.0 refl main_run main_run-BriskDuring
      written_before_10000 (entry_key entry_1)
      (record { date_utc = current_date_utc 0; last = entry_raw entry_1 }) written_row written_today
