-- ===== src/Storage/Repository.antt =====
-- The write methods of `Repository` in internal/storage/storage.go.
pub mod Atomic
use wlt_traffic.Base.{ℕ, ◌≡◌, Option, none, some}
use wlt_traffic.Error.{
  Stage, Result, beginning_transaction, upserting_daily_record, committing_daily_upsert,
  upserting_total_record, committing_total_upsert, upserting_checkpoint, committing_checkpoint,
}
use wlt_traffic.Exec.{Exec, wrap, deferred, ◌>>=◌, ◌>>◌}
use wlt_traffic.Storage.Types.{
  GoString, RecordKey, TrafficCounters, CheckpointRow, RecordKey-discrete, DailyKey-discrete,
  zip_counters,
}
use wlt_traffic.Storage.Table.{upsert}
use wlt_traffic.Storage.Engine.{
  Engine, Tables, Db, bind_counters, begin_tx, exec_tx, commit, rollback,
}

module _ (e : Engine) where
  -- `SET bytes = bytes + excluded.bytes, …`
  abbrev pub accumulate : TrafficCounters → TrafficCounters → TrafficCounters
  accumulate = zip_counters e.sum

  -- the statement on mac_traffic_daily
  unfoldable pub add_daily : RecordKey → GoString → TrafficCounters → Tables → Tables
  add_daily key date delta t = record t {
    daily =
        upsert DailyKey-discrete accumulate (record { key = key; date_utc = date }) delta t.daily;
  }

  -- the statement on mac_traffic_totals
  unfoldable pub add_total : RecordKey → TrafficCounters → Tables → Tables
  add_total key delta t = record t {
    totals = upsert RecordKey-discrete accumulate key delta t.totals;
  }

-- the statement on collector_checkpoints: every column is `excluded`'s
unfoldable pub put_checkpoint : RecordKey → GoString → TrafficCounters → Tables → Tables
put_checkpoint key date raw t = record t {
  checkpoints =
      upsert RecordKey-discrete (λ old excluded. excluded) key
        (record { date_utc = date; last = raw }) t.checkpoints;
}

module _ (e : Engine) where
  unfoldable pub upsert_daily : RecordKey → GoString → TrafficCounters → Db (Unit {0})
  unfolding begin_tx exec_tx commit
  upsert_daily key date delta = do
    wrap beginning_transaction (begin_tx e)
    deferred rollback do
      wrap upserting_daily_record (exec_tx e (bind_counters delta) (add_daily e key date delta))
      wrap committing_daily_upsert (commit e)

  unfoldable pub upsert_total : RecordKey → TrafficCounters → Db (Unit {0})
  unfolding begin_tx exec_tx commit
  upsert_total key delta = do
    wrap beginning_transaction (begin_tx e)
    deferred rollback do
      wrap upserting_total_record (exec_tx e (bind_counters delta) (add_total e key delta))
      wrap committing_total_upsert (commit e)

  unfoldable pub upsert_checkpoint : RecordKey → GoString → TrafficCounters → Db (Unit {0})
  unfolding begin_tx exec_tx commit
  upsert_checkpoint key date raw = do
    wrap beginning_transaction (begin_tx e)
    deferred rollback do
      wrap upserting_checkpoint (exec_tx e (bind_counters raw) (put_checkpoint key date raw))
      wrap committing_checkpoint (commit e)
