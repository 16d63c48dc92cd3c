-- ===== src/Main.antt =====
-- cmd/traffic-count/main.go: the program from its start to its end. What stands outside is `Host`;
-- what it prints is left out, and an exit ends the program with status 1.
pub mod Laws
pub mod Shutdown
pub mod Goroutines
use wlt_traffic.Base.{
  ℕ, Bool, true, false, not, ◌||◌, ◌&&◌, Option, none, some, List, [], if◌then◌else◌,
}
use wlt_traffic.Error.{Error, Result, ok, err}
use wlt_traffic.Config.{Config, ConfigError, Files, load, validate_config}
use wlt_traffic.Bootstrap.{Mode, StartupResult, StartupError, Validator, validate}
use wlt_traffic.Bootstrap.Checks.{System, new_validator}
use wlt_traffic.Go.Duration.{is_tickable}
use wlt_traffic.Storage.Types.{GoString}
use wlt_traffic.Storage.Engine.{Engine, Session, Tables}
use wlt_traffic.Storage.Open.{open_repository}
use wlt_traffic.Ebpf.Link.{Kernel, Net}
use wlt_traffic.Ebpf.Loader.{Objects}
use wlt_traffic.Runtime.Service.{Service, new_service, start_service, stop_service}
use wlt_traffic.Runtime.Service.Report.{update_from_result, is_healthy, is_degraded, service_map}
use wlt_traffic.Runtime.Flush.{FlushLoop, new_flush_loop}
use wlt_traffic.Runtime.Flush.Lifecycle.{start_flush, stop_flush}
use wlt_traffic.Runtime.Housekeeping.{
  HousekeepingLoop, new_housekeeping_loop, start_housekeeping, stop_housekeeping,
}

pub record Host : Type 0 where
  pub files : Files
  pub system : System
  pub kernel : Kernel
  pub net : Net
  pub objects : Objects
  pub engine : Engine
  -- what the database files hold
  pub tables : GoString → Tables
  -- the goroutine of the flush loop gets to its ticker before `main` goes on
  pub early : Bool

-- the flags of the command
pub record Flags : Type 0 where
  pub config_path : GoString
  pub ebpf_object_path : GoString

-- both loops write to one database, whose state is that of the flush loop
pub record App : Type 0 where
  pub svc : Service
  pub flush_loop : FlushLoop
  pub housekeeping_loop : HousekeepingLoop

pub data Outcome : Type 0 where
  exit_config : Error → Outcome
  exit_invalid : ConfigError → Outcome
  exit_checks : StartupError → Outcome
  exit_service exit_flush exit_housekeeping exit_database : Error → Outcome
  -- "service in failed state"
  exit_failed : Outcome
  -- `time.NewTicker` panics in the goroutine of a loop, which ends the program
  panicked : Outcome
  running : App → Outcome

abbrev pub is_failed_mode : Mode → Bool
is_failed_mode m = elim m [ Mode.failed ↦ true | _ ↦ false ]

-- the database as the housekeeping loop left it
abbrev pub left_by : HousekeepingLoop → FlushLoop → FlushLoop
left_by h f = elim h.repo [ none ↦ f | some s ↦ record f { repo = s } ]

-- both goroutines have made their tickers, or one of them has panicked
abbrev pub run_loops : App → Outcome
run_loops app =
    if is_tickable app.flush_loop.interval && is_tickable app.housekeeping_loop.interval
    then running app
    else panicked

abbrev pub with_housekeeping : Service → FlushLoop → Result (Unit {0}) × HousekeepingLoop → Outcome
with_housekeeping svc f (err x, h) = exit_housekeeping x
with_housekeeping svc f (ok _, h) =
    run_loops (record { svc = svc; flush_loop = left_by h f; housekeeping_loop = h })

module _ (host : Host) (now later : ℕ) where
  -- the goroutine of the flush loop panics before `main` goes on
  abbrev pub panics_early : FlushLoop → Bool
  panics_early f = host.early && not (is_tickable f.interval)

  -- from `NewHousekeepingLoop` on
  abbrev pub keep_house : Service → FlushLoop → Outcome
  keep_house svc f = with_housekeeping svc f (
      start_housekeeping host.engine now later
        (new_housekeeping_loop (some f.repo) svc.cfg.housekeeping_interval))

  abbrev pub with_flush : Service → Result (Unit {0}) × FlushLoop → Outcome
  with_flush svc (err x, f) = exit_flush x
  with_flush svc (ok _, f) = if panics_early f then panicked else keep_house svc f

  -- from `storage.New` on
  abbrev pub with_repository : Service → Result Session → Outcome
  with_repository svc (err x) = exit_database x
  with_repository svc (ok repo) =
      with_flush svc
        (start_flush host.engine (new_flush_loop repo (service_map svc) svc.cfg.flush_interval))

  -- from `svc.IsHealthy()` on
  unfoldable pub open_and_run : Service → Outcome
  unfolding new_flush_loop new_housekeeping_loop
  open_and_run svc =
      if is_healthy svc || is_degraded svc
      then with_repository svc (open_repository host.engine (host.tables svc.cfg.database_path))
      else exit_failed

  abbrev pub with_service : StartupResult → Result (Unit {0}) × Service → Outcome
  with_service result (err x, svc) = exit_service x
  with_service result (ok _, svc) = open_and_run (update_from_result result svc)

  -- from `NewService` on
  unfoldable pub serve : Config → GoString → StartupResult → Outcome
  unfolding open_and_run
  serve cfg path result =
      with_service result (start_service host.kernel host.objects (new_service cfg path host.net))

  -- the error of the startup checks ends the program only in the failed mode
  abbrev pub with_result : Config → GoString → StartupResult × Option StartupError → Outcome
  with_result cfg path (result, none) = serve cfg path result
  with_result cfg path (result, some x) =
      if is_failed_mode result.mode then exit_checks x else serve cfg path result

  abbrev pub with_valid : Config → GoString → Option ConfigError → Outcome
  with_valid cfg path (some x) = exit_invalid x
  with_valid cfg path none = with_result cfg path (validate (new_validator host.system cfg))

  abbrev pub with_config : GoString → Result Config → Outcome
  with_config path (err x) = exit_config x
  with_config path (ok cfg) = with_valid cfg path (validate_config cfg)

  -- `main`, up to the wait for a signal
  unfoldable pub main : Flags → Outcome
  unfolding serve new_validator
  main flags = with_config flags.ebpf_object_path (load host.files flags.config_path)

-- `main`, after the signal; the errors are only printed. The waits are `ctx.Err()` of
-- `context.Background()`, which is never done: `none`.
module _ (host : Host) (order : List GoString → List GoString) (fuel started finished : ℕ) where
  unfoldable pub shut_down : App → App
  shut_down app = record {
    housekeeping_loop = (stop_housekeeping none app.housekeeping_loop).1;
    flush_loop = (stop_flush host.engine fuel started finished none app.flush_loop).1;
    svc = stop_service host.kernel order app.svc;
  }
