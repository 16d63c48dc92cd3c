-- ===== src/Storage/Query.antt =====
-- The reading methods of `Repository` that return one row.
use mathlib.Core.Option
use wlt_traffic.Base.{Option}
use wlt_traffic.Error.{querying_checkpoint, querying_daily_record, querying_total_record}
use wlt_traffic.Exec.{wrap, gets, ◌>>◌}
use wlt_traffic.Storage.Types.{
  GoString, RecordKey, DailyRecord, TotalRecord, Checkpoint, RecordKey-discrete, DailyKey-discrete,
}
use wlt_traffic.Storage.Table.{find}
use wlt_traffic.Storage.Engine.{Engine, Tables, Db, call}

abbrev pub checkpoint_in : Tables → RecordKey → Option Checkpoint
checkpoint_in t key =
    Option.map (λ row. record { key = key; date_utc = row.date_utc; last = row.last })
      (find RecordKey-discrete key t.checkpoints)

abbrev pub daily_in : Tables → RecordKey → GoString → Option DailyRecord
daily_in t key date =
    Option.map (λ c. record { key = key; date_utc = date; counters = c })
      (find DailyKey-discrete (record { key = key; date_utc = date }) t.daily)

abbrev pub total_in : Tables → RecordKey → Option TotalRecord
total_in t key =
    Option.map (λ c. record { key = key; counters = c }) (find RecordKey-discrete key t.totals)

module _ (e : Engine) where
  unfoldable pub get_checkpoint : RecordKey → Db (Option Checkpoint)
  unfolding call
  get_checkpoint key = do wrap querying_checkpoint (call e); gets λ s. checkpoint_in s.committed key

  unfoldable pub get_daily : RecordKey → GoString → Db (Option DailyRecord)
  unfolding call
  get_daily key date = do
    wrap querying_daily_record (call e)
    gets λ s. daily_in s.committed key date

  unfoldable pub get_total : RecordKey → Db (Option TotalRecord)
  unfolding call
  get_total key = do wrap querying_total_record (call e); gets λ s. total_in s.committed key
