-- ===== src/Runtime/Housekeeping.antt =====
-- internal/runtime/housekeeping.go: the loop that prunes old daily rows.
pub mod Prune
use wlt_traffic.Base.{ℕ, ◌*◌, Bool, true, false, Option, none, some, [], if◌then◌else◌}
use wlt_traffic.Error.{Error, Result, ok, err, pruning_daily_records, initial_housekeeping_run}
use wlt_traffic.Exec.{Exec, in_stage}
use wlt_traffic.Calendar.{prune_cutoff_date, second}
use wlt_traffic.Go.Strconv.{ℤ}
use wlt_traffic.Go.Duration.{in_seconds}
use wlt_traffic.Storage.Types.{GoString}
use wlt_traffic.Storage.Engine.{Engine, Session}
use wlt_traffic.Storage.Prune.{prune_daily}

pub record HousekeepingLoop : Type 0 where
  pub repo : Option Session
  pub interval : ℕ
  -- the zero time is `none`
  pub last_run : Option ℕ
  pub last_prune_date : GoString
  pub prune_err : Option Error
  pub stopped : Bool

unfoldable pub new_housekeeping_loop : Option Session → ℤ → HousekeepingLoop
new_housekeeping_loop repo interval_sec = record {
  repo = repo;
  interval = in_seconds interval_sec;
  last_run = none;
  last_prune_date = [];
  prune_err = none;
  stopped = false;
}

-- the rest of `runOnce`, once `PruneDaily` has returned
abbrev pruned :
    GoString → HousekeepingLoop → Result ℕ × Session → Result (Unit {0}) × HousekeepingLoop
pruned cutoff h (ok n, s) =
    (ok tt, record h { repo = some s; last_prune_date = cutoff; prune_err = none })
pruned cutoff h (err x, s) =
    in_stage pruning_daily_records (err x, record h { repo = some s; prune_err = some x })

-- `runOnce(ctx)`: the cutoff is computed at the time `now`, and `lastRun` a moment later
unfoldable pub run_once : Engine → ℕ → ℕ → Exec HousekeepingLoop (Unit {0})
run_once e now later h = elim h.repo [
  | none ↦ (ok tt, h)
  | some s ↦
      let cutoff = prune_cutoff_date now in
      pruned cutoff (record h { last_run = some later }) (prune_daily e cutoff s)
]

-- `Start(ctx)`: the first run; the loop starts only if it succeeds
unfoldable pub start_housekeeping : Engine → ℕ → ℕ → Exec HousekeepingLoop (Unit {0})
start_housekeeping e now later h = in_stage initial_housekeeping_run (run_once e now later h)

-- `Stop(ctx)`: `waited` is `ctx.Err()` if the context ends before the loop does
unfoldable pub stop_housekeeping : Option Error → Exec HousekeepingLoop (Unit {0})
stop_housekeeping waited h =
    let g = record h { stopped = true } in
    if h.stopped then (ok tt, h) else elim waited [ some x ↦ (err x, g) | none ↦ (ok tt, g) ]

-- a tick of `runLoop`
unfoldable pub housekeeping_tick : Engine → ℕ → ℕ → HousekeepingLoop → HousekeepingLoop
housekeeping_tick e now later h =
    let (r, g) = run_once e now later h in
    elim r [ ok _ ↦ g | err x ↦ record g { prune_err = some x } ]

-- `LastRun()`, `LastPruneCutoff()` and `PruneError()`
unfoldable pub get_last_run : HousekeepingLoop → Option ℕ
get_last_run h = h.last_run

unfoldable pub get_last_prune_cutoff : HousekeepingLoop → GoString
get_last_prune_cutoff h = h.last_prune_date

unfoldable pub get_prune_error : HousekeepingLoop → Option Error
get_prune_error h = h.prune_err
