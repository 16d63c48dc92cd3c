-- ===== src/Examples/Storage.antt =====
-- Writes to a database, and a run of the housekeeping loop.
use wlt_traffic.Base.{◌<◌, ◌*◌, ◌+◌, ◌≡◌, refl, none, some, [], ◌∷◌, ltb, leb, arith, if◌then◌else◌}
use wlt_traffic.Error.{ok, on_ok}
use wlt_traffic.Calendar.{
  date_of_day, day_of, day_length, days_before, format_date_utc, prune_cutoff_date,
}
use wlt_traffic.Calendar.TextOrder.{text_leb-format_date_utc}
use wlt_traffic.Storage.Types.{RecordKey}
use wlt_traffic.Storage.Text.{text_leb}
use wlt_traffic.Storage.Engine.{Session}
use wlt_traffic.Storage.Prune.{prune_daily}
use wlt_traffic.Runtime.Flush.{raw_counters, persist_all}
use wlt_traffic.Runtime.Flush.Rows.{daily_row}
use wlt_traffic.Runtime.Flush.Persist.{recorded, persist_all_lem}
use wlt_traffic.Go.Strconv.{pos}
use wlt_traffic.Runtime.Housekeeping.{HousekeepingLoop, new_housekeeping_loop, run_once}
use wlt_traffic.Runtime.Housekeeping.Prune.{run_once_rows}
use wlt_traffic.Runtime.History.{new_session}
use wlt_traffic.Examples.Data.{quiet, failing, mac_1, counter_of, day_1}

abbrev eth0 : RecordKey
eth0 = record { interface_name = []; ifindex = 2; mac = mac_1 }

-- the fifth call of the driver, the commit, fails
persist_all_lem_example :
    let (r, s') =
      persist_all failing eth0 day_1
        (raw_counters (counter_of 10 1))
        (raw_counters (counter_of 30 2))
        new_session in
    (s'.committed
      ≡ on_ok r
          (recorded failing eth0 day_1
            (raw_counters (counter_of 10 1))
            (raw_counters (counter_of 30 2))
            new_session.committed)
          new_session.committed)
    × (s'.pending ≡ none)
persist_all_lem_example =
    persist_all_lem failing eth0 day_1 (raw_counters (counter_of 10 1))
      (raw_counters (counter_of 30 2)) new_session refl

dated : (date_of_day 3).year < 10_000
unfolding date_of_day
dated = omega arith

first_dated : (date_of_day 0).year < 10_000
unfolding date_of_day
first_dated = omega arith

text_leb-format_date_utc_example :
    text_leb (format_date_utc (3 * day_length)) (format_date_utc 0)
    ≡ leb (day_of (3 * day_length)) (day_of 0)
text_leb-format_date_utc_example = text_leb-format_date_utc (3 * day_length) 0 dated first_dated

-- a row of the first day, on the 404th day
abbrev old : Session
old = record new_session {
  committed = record new_session.committed {
    daily = (record { key = eth0; date_utc = day_1 }, raw_counters (counter_of 10 1)) ∷ [];
  };
}

abbrev old_loop : HousekeepingLoop
old_loop = new_housekeeping_loop (some old) (pos 3600)

abbrev pruned : Session
pruned = (prune_daily quiet (format_date_utc (3 * day_length)) old).1

old_repo : old_loop.repo ≡ some old
unfolding new_housekeeping_loop
old_repo = refl

run_succeeds : (run_once quiet (403 * day_length) (403 * day_length + 1) old_loop).0 ≡ ok tt
unfolding run_once prune_daily new_housekeeping_loop
run_succeeds = refl

run_repo : (run_once quiet (403 * day_length) (403 * day_length + 1) old_loop).1.repo ≡ some pruned
unfolding run_once prune_daily new_housekeeping_loop prune_cutoff_date
run_repo = refl

run_once_rows_example : daily_row pruned.committed eth0 (format_date_utc 0) ≡ (
    if ltb (day_of 0) (day_of (days_before 400 (403 * day_length)))
    then none
    else daily_row old.committed eth0 (format_date_utc 0))
run_once_rows_example =
    run_once_rows quiet (403 * day_length) (403 * day_length + 1) old_loop old pruned old_repo
      run_succeeds run_repo eth0 0 first_dated dated
