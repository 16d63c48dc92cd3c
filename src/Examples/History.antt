-- ===== src/Examples/History.antt =====
-- A history of two days: a flush on each, and a restart between them.
use wlt_traffic.Base.{ℕ_discrete, ◌<◌, ◌≡◌, refl, some, arith}
use wlt_traffic.Calendar.{current_date_utc, date_of_day}
use wlt_traffic.Storage.Engine.{rollback, bind_counters}
use wlt_traffic.Storage.Table.{find, upsert}
use wlt_traffic.Storage.Types.{RecordKey-discrete, DailyKey-discrete}
use wlt_traffic.Storage.Query.{get_checkpoint}
use wlt_traffic.Storage.Repository.{put_checkpoint, add_daily, add_total}
use wlt_traffic.Ebpf.TrafficMap.{next as next_entry, iterate}
use wlt_traffic.Runtime.Flush.{flush, flush_end, flush_map, flush_entry, flush_delta, persist_all}
use wlt_traffic.Runtime.Flush.Account.{entry_key, entry_raw}
use wlt_traffic.Runtime.Flush.Rows.{checkpoint_row, daily_row}
use wlt_traffic.Runtime.Flush.Synced.{counters_of}
use wlt_traffic.Runtime.History.{World, Reach, here, next, flushed, restarted, new_session}
use wlt_traffic.Runtime.History.Invariant.{bucket-checkpoint}
use wlt_traffic.Examples.Data.{quiet, quiet-IsExact, new_loop, entry_1}

abbrev begun : World
begun = record { db = new_session; now = 0 }

abbrev ended : World
ended = record { db = rollback (flush quiet 3 0 1 new_loop).1.repo; now = 1 }

life : Reach quiet begun ended
life = next (next here (flushed new_loop 3 1 refl (omega arith) refl)) restarted

ended_dated : (date_of_day 0).year < 10_000
unfolding date_of_day
ended_dated = omega arith

ended_checkpoint :
    checkpoint_row ended.db.committed (entry_key entry_1)
    ≡ some (record { date_utc = current_date_utc 1; last = entry_raw entry_1 })
unfolding flush flush_end flush_map flush_entry flush_delta persist_all next_entry iterate
    get_checkpoint bind_counters put_checkpoint add_daily add_total upsert find RecordKey-discrete
    DailyKey-discrete ℕ_discrete current_date_utc
ended_checkpoint = refl

bucket-checkpoint_example :
    counters_of (daily_row ended.db.committed (entry_key entry_1) (current_date_utc 1))
    ≡ entry_raw entry_1
bucket-checkpoint_example =
    bucket-checkpoint quiet quiet-IsExact life refl ended_dated (entry_key entry_1)
      (record { date_utc = current_date_utc 1; last = entry_raw entry_1 }) ended_checkpoint refl
