-- ===== src/Examples/Entry.antt =====
-- Single entries flushed on the day of their checkpoint and on the next.
use wlt_traffic.Base.{ℕ, ◌≡◌, ◌≢◌, refl, none, some, [], ◌∷◌, arith}
use wlt_traffic.Error.{ok}
use wlt_traffic.Storage.Types.{GoString, CheckpointRow, RecordKey-discrete, DailyKey-discrete}
use wlt_traffic.Storage.Engine.{Session}
use wlt_traffic.Storage.Table.{find}
use wlt_traffic.Runtime.Flush.{raw_counters, sub64}
use wlt_traffic.Runtime.Flush.Account.{entry_key, entry_raw}
use wlt_traffic.Runtime.Flush.Rows.{checkpoint_row, daily_row, total_row, delta_in-today}
use wlt_traffic.Runtime.Flush.Synced.{counters_of}
use wlt_traffic.Runtime.Flush.Complete.{flush_entry_ok}
use wlt_traffic.Runtime.Flush.Counts.{
  plus, flush_one, flush_entry_counts, flush_entry_rollover, flush_entry_regressed,
}
use wlt_traffic.Examples.Data.{
  quiet, quiet-IsExact, quiet-IsReliable, entry_1, counter_of, day_1, day_2,
}

-- a database that has flushed the first entry on the day `day` at the count `n`
abbrev row_at : GoString → ℕ → CheckpointRow
row_at day n = record { date_utc = day; last = raw_counters (counter_of n 1) }

abbrev counted_at : GoString → ℕ → Session
counted_at day n = record {
  committed = record {
    totals = (entry_key entry_1, raw_counters (counter_of n 1)) ∷ [];
    daily =
        (record { key = entry_key entry_1; date_utc = day }, raw_counters (counter_of n 1)) ∷ [];
    checkpoints = (entry_key entry_1, row_at day n) ∷ [];
  };
  pending = none;
  calls = 0;
}

module _ (day : GoString) (n : ℕ) where
  checkpoint_at :
      checkpoint_row (counted_at day n).committed (entry_key entry_1) ≡ some (row_at day n)
  unfolding find
  checkpoint_at = ground arith

  total_at :
      total_row (counted_at day n).committed (entry_key entry_1)
      ≡ some (raw_counters (counter_of n 1))
  unfolding find
  total_at = ground arith

days_differ : day_1 ≢ day_2
days_differ = ground arith

rolled_over : (flush_one quiet day_2 entry_1 (counted_at day_1 1000)).0 ≡ ok tt
rolled_over =
    flush_entry_ok quiet day_2 entry_1 (counted_at day_1 1000) quiet-IsReliable (omega arith)
      (record { caught_up = λ row f q. ground (arith, days_differ, checkpoint_at day_1 1000) })

flush_entry_rollover_example :
    let t = (counted_at day_1 1000).committed in
    let t' = (flush_one quiet day_2 entry_1 (counted_at day_1 1000)).1.committed in
    let k = entry_key entry_1 in
    (counters_of (total_row t' k) ≡ plus (counters_of (total_row t k)) (entry_raw entry_1))
    × (counters_of (daily_row t' k day_2)
        ≡ plus (counters_of (daily_row t k day_2)) (entry_raw entry_1))
unfolding find RecordKey-discrete DailyKey-discrete
flush_entry_rollover_example =
    flush_entry_rollover quiet day_2 entry_1 (counted_at day_1 1000) (row_at day_1 1000)
      (checkpoint_at day_1 1000) quiet-IsExact days_differ (omega arith) (omega arith) rolled_over

flush_entry_regressed_example :
    ((flush_one quiet day_1 entry_1 (counted_at day_1 2000)).0 ≢ ok tt)
    × ((flush_one quiet day_1 entry_1 (counted_at day_1 2000)).1.committed
        ≡ (counted_at day_1 2000).committed)
flush_entry_regressed_example =
    flush_entry_regressed quiet day_1 entry_1 (counted_at day_1 2000) (row_at day_1 2000)
      (checkpoint_at day_1 2000) refl (omega arith) (λ h. omega arith)

same_day : (flush_one quiet day_1 entry_1 (counted_at day_1 1000)).0 ≡ ok tt
same_day =
    flush_entry_ok quiet day_1 entry_1 (counted_at day_1 1000) quiet-IsReliable (omega arith)
      (record { caught_up = λ row f q. ground (arith, checkpoint_at day_1 1000) })

flush_entry_counts_example :
    let t = (counted_at day_1 1000).committed in
    let t' = (flush_one quiet day_1 entry_1 (counted_at day_1 1000)).1.committed in
    let k = entry_key entry_1 in
    let delta = raw_counters (counter_of 500 2) in
    (counters_of (total_row t' k) ≡ plus (counters_of (total_row t k)) delta)
    × (counters_of (daily_row t' k day_1) ≡ plus (counters_of (daily_row t k day_1)) delta)
    × (checkpoint_row t' k ≡ some (record { date_utc = day_1; last = entry_raw entry_1 }))
unfolding find RecordKey-discrete DailyKey-discrete sub64
flush_entry_counts_example =
    flush_entry_counts quiet day_1 entry_1 (counted_at day_1 1000) (raw_counters (counter_of 500 2))
      quiet-IsExact
      (delta_in-today quiet day_1 (counted_at day_1 1000).committed entry_1 (row_at day_1 1000)
        (checkpoint_at day_1 1000) refl)
      (omega arith) (omega arith) same_day
