-- ===== src/Runtime/Flush/Rows.antt =====
-- The rows of the tables after one entry is accounted for.
use wlt_traffic.Base.{◌≡◌, ◌≢◌, ap, Option, none, some, arith, if◌then◌else◌}
use wlt_traffic.Storage.Types.{
  GoString, RecordKey, DailyKey, TrafficCounters, CheckpointRow, RecordKey-discrete,
  DailyKey-discrete, zip_counters,
}
use wlt_traffic.Storage.Table.{find, merged, find-upsert_self, find-upsert_ne}
use wlt_traffic.Storage.Engine.{Engine, Tables}
use wlt_traffic.Storage.Repository.{accumulate, add_daily, add_total, put_checkpoint}
use wlt_traffic.Runtime.Flush.{is_idle, flush_delta, sub64}
use wlt_traffic.Runtime.Flush.Account.{Entry, entry_key, entry_raw, account, delta_in}

abbrev pub checkpoint_row : Tables → RecordKey → Option CheckpointRow
checkpoint_row t k = find RecordKey-discrete k t.checkpoints

abbrev pub total_row : Tables → RecordKey → Option TrafficCounters
total_row t k = find RecordKey-discrete k t.totals

abbrev pub daily_row : Tables → RecordKey → GoString → Option TrafficCounters
daily_row t k d = find DailyKey-discrete (record { key = k; date_utc = d }) t.daily

-- a row that an idle delta leaves and any other delta is added to
abbrev pub grown : Engine → TrafficCounters → Option TrafficCounters → Option TrafficCounters
grown e delta o = if is_idle delta then o else some (merged (accumulate e) delta o)

-- The delta of an entry: on the first flush of its key, on the day of its checkpoint, and on
-- another day.
module _ (e : Engine) (today : GoString) (t : Tables) (entry : Entry) where
  pub delta_in-first :
      checkpoint_row t (entry_key entry) ≡ none → delta_in e today t entry ≡ entry_raw entry
  unfolding flush_delta
  delta_in-first h = rw (h, flush_delta)

  pub delta_in-today :
      (row : CheckpointRow)
      → checkpoint_row t (entry_key entry) ≡ some row
      → row.date_utc ≡ today
      → delta_in e today t entry ≡ zip_counters sub64 (entry_raw entry) row.last
  unfolding flush_delta
  delta_in-today row h p = rw (h, flush_delta) (ground arith)

  pub delta_in-new_day :
      (row : CheckpointRow)
      → checkpoint_row t (entry_key entry) ≡ some row
      → row.date_utc ≢ today
      → delta_in e today t entry ≡ entry_raw entry
  unfolding flush_delta
  delta_in-new_day row h p = rw (h, flush_delta) (ground arith)

module _ (e : Engine) (today : GoString) (entry : Entry) (t : Tables) where
  pub checkpoint-account_self :
      checkpoint_row (account e today entry t) (entry_key entry)
      ≡ some (record { date_utc = today; last = entry_raw entry })
  unfolding account put_checkpoint add_daily add_total
  checkpoint-account_self = ground (
    arith,
    find-upsert_self RecordKey-discrete (λ old excluded. excluded) (entry_key entry)
        (record { date_utc = today; last = entry_raw entry }) t.checkpoints,
  )

  pub checkpoint-account_ne :
      (k : RecordKey)
      → entry_key entry ≢ k
      → checkpoint_row (account e today entry t) k ≡ checkpoint_row t k
  unfolding account put_checkpoint add_daily add_total
  checkpoint-account_ne k h = ground (
    arith,
    find-upsert_ne RecordKey-discrete (λ old excluded. excluded) (entry_key entry) k
        (record { date_utc = today; last = entry_raw entry }) t.checkpoints h,
  )

  pub total-account_self :
      total_row (account e today entry t) (entry_key entry)
      ≡ grown e (delta_in e today t entry) (total_row t (entry_key entry))
  unfolding account put_checkpoint add_daily add_total
  total-account_self = ground (
    arith,
    find-upsert_self RecordKey-discrete (accumulate e) (entry_key entry) (delta_in e today t entry)
        t.totals,
  )

  pub total-account_ne :
      (k : RecordKey) → entry_key entry ≢ k → total_row (account e today entry t) k ≡ total_row t k
  unfolding account put_checkpoint add_daily add_total
  total-account_ne k h = ground (
    arith,
    find-upsert_ne RecordKey-discrete (accumulate e) (entry_key entry) k (delta_in e today t entry)
        t.totals h,
  )

  abbrev daily_key : DailyKey
  daily_key = record { key = entry_key entry; date_utc = today }

  pub daily-account_self :
      daily_row (account e today entry t) (entry_key entry) today
      ≡ grown e (delta_in e today t entry) (daily_row t (entry_key entry) today)
  unfolding account put_checkpoint add_daily add_total
  daily-account_self = ground (
    arith,
    find-upsert_self DailyKey-discrete (accumulate e) daily_key (delta_in e today t entry) t.daily,
  )

  pub daily-account_ne :
      (k : RecordKey) (d : GoString)
      → (entry_key entry ≡ k → today ≢ d)
      → daily_row (account e today entry t) k d ≡ daily_row t k d
  unfolding account put_checkpoint add_daily add_total
  daily-account_ne k d h = ground (
    arith,
    find-upsert_ne DailyKey-discrete (accumulate e) daily_key (record { key = k; date_utc = d })
        (delta_in e today t entry) t.daily
        (λ p. h (ap (λ (x : DailyKey). x.key) p) (ap (λ (x : DailyKey). x.date_utc) p)),
  )
