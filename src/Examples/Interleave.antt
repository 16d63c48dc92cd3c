-- ===== src/Examples/Interleave.antt =====
-- A flush whose calls are interleaved with a pruning, a request and the end of the program.
use wlt_traffic.Base.Sort.{keep}
use wlt_traffic.Base.{ℕ_discrete, ◌≡◌, ◌≢◌, refl, subst, none, some, arith, true}
use wlt_traffic.Storage.Listing.{list_checkpoints, select_checkpoints, scan_rows}
use wlt_traffic.Base.Sort.{sort_by, keep}
use wlt_traffic.Storage.Prune.{prune_daily, delete_older, rows_older}
use wlt_traffic.Runtime.Flush.Correct.{flush_total}
use wlt_traffic.Error.{ok, err, out_of_fuel}
use wlt_traffic.Calendar.{current_date_utc, prune_cutoff_date, format_date_utc, date_of_day}
use wlt_traffic.Storage.Types.{RecordKey-discrete, DailyKey-discrete}
use wlt_traffic.Storage.Text.{text_leb_refl, text_leb}
use wlt_traffic.Storage.Engine.{begin_tx, exec_tx, commit, call, bind_counters}
use wlt_traffic.Storage.Table.{delete_where, count_where, find, upsert}
use wlt_traffic.Storage.Query.{get_checkpoint}
use wlt_traffic.Storage.Repository.{put_checkpoint, add_daily, add_total}
use wlt_traffic.Ebpf.TrafficMap.{next_key, lookup, next as next_entry, iterate}
use wlt_traffic.Runtime.Flush.{flush, flush_delta, persist_all}
use wlt_traffic.Runtime.Flush.Account.{entry_key, entry_raw}
use wlt_traffic.Runtime.Flush.Rows.{checkpoint_row, daily_row}
use wlt_traffic.Runtime.Flush.Synced.{counters_of}
use wlt_traffic.Runtime.Flush.Lifecycle.{stop_flush, start_flush, restore_checkpoints}
use wlt_traffic.Runtime.History.{new_session}
use wlt_traffic.Runtime.Interleave.{
  FlushPoint, flush_begin, flush_move, flush_write, selecting, flushing, finished, uncalled, final,
  over, pruning, Process, new_process, start_loop, move_loop, loop_started, prune, started, ticked,
  loop_moved, prune_began, pruned, Life, born, lived, Run, here, next,
}
use wlt_traffic.Runtime.Interleave.Alone.{flushes_alone}
use wlt_traffic.Runtime.Interleave.Points.{IsRecent}
use wlt_traffic.Runtime.Interleave.Frame.{IsBrisk}
use wlt_traffic.Runtime.Interleave.Invariant.{interleaved_bucket, Throughout}
use wlt_traffic.Runtime.Interleave.Quiet.{IsStopped, SameFlushed, IsStopped-quiet}
use wlt_traffic.Runtime.Interleave.Stop.{stop_flush-Run}
use wlt_traffic.Examples.Data.{
  quiet, quiet-IsExact, kernel, new_loop, entry_1, entries, quiet-IsReliable,
}
use wlt_traffic.Examples.Flush.{kernel-Lists, new-Accepted}
use wlt_traffic.Runtime.History.Invariant.{Dated}

abbrev process_0 : Process
process_0 = new_process 0 new_loop

abbrev process_1 : Process
process_1 = start_loop quiet process_0

abbrev point_2 : FlushPoint
point_2 = flush_begin process_1.now process_1.flush_loop

abbrev process_2 : Process
process_2 = record process_1 { loop = flushing point_2 }

abbrev process_3 : Process
process_3 = move_loop quiet kernel point_2 process_2

abbrev point_3 : FlushPoint
point_3 = (flush_move quiet kernel 0 point_2 process_2.flush_loop).0

abbrev process_4 : Process
process_4 = move_loop quiet kernel point_3 process_3

abbrev point_4 : FlushPoint
point_4 = (flush_move quiet kernel 0 point_3 process_3.flush_loop).0

-- a pruning between the read of the checkpoint and the write
abbrev process_5 : Process
process_5 = record process_4 { pruner = pruning (prune_cutoff_date 0) }

abbrev process_6 : Process
process_6 = prune quiet (prune_cutoff_date 0) process_5

abbrev process_7 : Process
process_7 = move_loop quiet kernel point_4 process_6

is_selecting : process_1.loop ≡ selecting
unfolding start_loop start_flush restore_checkpoints loop_started list_checkpoints
    select_checkpoints scan_rows sort_by keep call
is_selecting = refl

life_2 : Life quiet new_session process_2
life_2 = lived (lived (born 0 new_loop refl) (started refl)) (ticked is_selecting)

flushes_alone_example : process_2.stop ≢ final point_2
flushes_alone_example = flushes_alone life_2 point_2 point_2 refl

life_7 : Life quiet new_session process_7
unfolding move_loop prune start_loop
life_7 =
    lived
      (lived
        (lived
          (lived (lived life_2 (loop_moved kernel point_2 refl)) (loop_moved kernel point_3 refl))
          (prune_began refl))
        (pruned (prune_cutoff_date 0) refl))
      (loop_moved kernel point_4 refl)

pub begun_IsBrisk :
    (p : Process) (point : FlushPoint)
    → p.loop ≡ flushing point
    → p.stop ≡ uncalled
    → IsRecent p.now point
    → IsBrisk p
begun_IsBrisk p point h stop recent = (
  λ other q. subst (IsRecent p.now) (ground (arith, h, q)) recent,
  λ other q. ground (arith, stop, q),
)

pub recent_0 : (text_leb (prune_cutoff_date 0) (current_date_utc 0) ≡ true)
unfolding prune_cutoff_date current_date_utc
recent_0 = text_leb_refl (format_date_utc 0)

points : (IsRecent 0 point_2) × (IsRecent 0 point_3) × (IsRecent 0 point_4)
unfolding flush_begin flush_move next_entry iterate get_checkpoint next_key lookup call start_loop
    start_flush restore_checkpoints list_checkpoints scan_rows select_checkpoints sort_by keep
points = (recent_0, recent_0, recent_0)

pub resting_IsBrisk :
    (p : Process) → ((point : FlushPoint) → p.loop ≢ flushing point) → p.stop ≡ uncalled → IsBrisk p
resting_IsBrisk p n stop = (λ other q. absurd (n other q), λ other q. ground (arith, stop, q))

life_7-IsBrisk : Throughout IsBrisk life_7
unfolding life_7 life_2 move_loop prune start_loop
life_7-IsBrisk =
    let (r, r', r'') = points in
    (
      begun_IsBrisk process_6 point_4 refl refl r'',
      (
        begun_IsBrisk process_5 point_4 refl refl r'',
        (
          begun_IsBrisk process_4 point_4 refl refl r'',
          (
            begun_IsBrisk process_3 point_3 refl refl r',
            (
              begun_IsBrisk process_2 point_2 refl refl r,
              (
                resting_IsBrisk process_1 (λ point q. ground (arith, is_selecting, q)) refl,
                (resting_IsBrisk process_0 (λ point q. ground (arith, q)) refl, tt),
              ),
            ),
          ),
        ),
      ),
    )

date_7 : Dated process_7.now
unfolding date_of_day move_loop prune start_loop
date_7 = omega arith

checkpoint_7 :
    checkpoint_row process_7.flush_loop.repo.committed (entry_key entry_1)
    ≡ some (record { date_utc = current_date_utc 0; last = entry_raw entry_1 })
unfolding move_loop prune start_loop flush_begin flush_move flush_write next_entry iterate
    get_checkpoint next_key lookup call start_flush restore_checkpoints list_checkpoints scan_rows
    select_checkpoints sort_by keep flush_delta persist_all bind_counters put_checkpoint add_daily
    add_total upsert find RecordKey-discrete DailyKey-discrete ℕ_discrete current_date_utc
    prune_daily delete_older delete_where begin_tx exec_tx commit rows_older count_where
checkpoint_7 = refl

today_7 : current_date_utc 0 ≡ current_date_utc process_7.now
unfolding move_loop prune start_loop
today_7 = refl

interleaved_bucket_example :
    counters_of (
      daily_row process_7.flush_loop.repo.committed
        (entry_key entry_1)
        (current_date_utc process_7.now))
    ≡ entry_raw entry_1
interleaved_bucket_example =
    interleaved_bucket quiet quiet-IsExact new_session refl life_7 date_7 life_7-IsBrisk
      (entry_key entry_1) (record { date_utc = current_date_utc 0; last = entry_raw entry_1 })
      checkpoint_7 today_7

-- a process whose flush loop was stopped
abbrev stopped : Process
stopped = record process_0 { loop = finished; stop = over (ok tt) }

abbrev stopped_pruning : Process
stopped_pruning = record stopped { pruner = pruning (prune_cutoff_date 0) }

stopped_run : Run quiet stopped (prune quiet (prune_cutoff_date 0) stopped_pruning)
stopped_run = next (next here (prune_began refl)) (pruned (prune_cutoff_date 0) refl)

IsStopped-quiet_example :
    IsStopped (prune quiet (prune_cutoff_date 0) stopped_pruning)
    × SameFlushed stopped.flush_loop.repo.committed
        (prune quiet (prune_cutoff_date 0) stopped_pruning).flush_loop.repo.committed
IsStopped-quiet_example =
    IsStopped-quiet stopped_run (record { result = ok tt; loop = refl; stop = refl })

flushes_enough : (flush quiet 3 0 0 (record new_loop { stopped = true })).0 ≢ err out_of_fuel
unfolding flush
flushes_enough h =
    let good =
      flush_total quiet 3 0 0 (record new_loop { stopped = true }) kernel refl entries kernel-Lists
        (omega arith) quiet-IsReliable refl new-Accepted in
    ground (arith, good.0, h)

abbrev waiting_loop : Process
waiting_loop = record process_0 { loop = selecting }

stop_flush-Run_example :
    let (r, f) = stop_flush quiet 3 0 0 none new_loop in
    Run quiet waiting_loop (record waiting_loop { flush_loop = f; loop = finished; stop = over r })
stop_flush-Run_example =
    stop_flush-Run quiet kernel 3 waiting_loop refl refl refl refl flushes_enough
