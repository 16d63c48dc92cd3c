-- ===== src/Main/Goroutines.antt =====
-- The program of cmd/traffic-count/main.go, once it runs, in the model of its goroutines.
use wlt_traffic.Base.{
  ℕ, ◌≡◌, ◌≢◌, ◌∙◌, refl, sym, ap, subst, Option, none, some, arith, inl, inr, Option-cases,
}
use wlt_traffic.Runtime.History.{empty_tables}
use wlt_traffic.Runtime.History.Invariant.{Dated}
use wlt_traffic.Runtime.Flush.Rows.{checkpoint_row, daily_row}
use wlt_traffic.Runtime.Flush.Synced.{counters_of}
use wlt_traffic.Error.{Result, ok, err}
use wlt_traffic.Config.{Config, load, validate_config}
use wlt_traffic.Bootstrap.{StartupResult, StartupError, validate}
use wlt_traffic.Bootstrap.Checks.{new_validator}
use wlt_traffic.Calendar.{current_date_utc, prune_cutoff_date}
use wlt_traffic.Storage.Types.{GoString, RecordKey, CheckpointRow}
use wlt_traffic.Storage.Engine.{Engine, Session, IsExact}
use wlt_traffic.Storage.Open.{open_repository, open_repository_lem}
use wlt_traffic.Storage.Prune.{prune_daily}
use wlt_traffic.Runtime.Service.{Service, new_service, start_service}
use wlt_traffic.Runtime.Service.Report.{update_from_result, service_map}
use wlt_traffic.Runtime.Flush.{FlushLoop, new_flush_loop}
use wlt_traffic.Runtime.Flush.Lifecycle.{start_flush}
use wlt_traffic.Runtime.Housekeeping.{HousekeepingLoop, new_housekeeping_loop, start_housekeeping}
use wlt_traffic.Runtime.Housekeeping.Prune.{run_once_repo}
use wlt_traffic.Runtime.Interleave.{
  Process, new_process, selecting, pruning, start_loop, loop_started, prune, Life, born, lived,
  started, prune_began, pruned,
}
use wlt_traffic.Runtime.Interleave.{FlushPoint, flushing, uncalled, Run, here, next}
use wlt_traffic.Runtime.Interleave.Frame.{IsBrisk}
use wlt_traffic.Runtime.Interleave.Invariant.{Throughout, interleaved_bucket}
use wlt_traffic.Main.Laws.{open_and_run-running, with_flush-keep_house}
use wlt_traffic.Main.{
  Host, Flags, App, running, open_and_run, serve, main, with_housekeeping, with_flush,
  with_repository, with_service, with_result, with_config,
}

-- the loops wait for their tickers
abbrev pub ticking : ℕ → FlushLoop → Process
ticking now f = record (new_process now f) { loop = selecting }

-- a life in which no flush is under way that began on a day old enough to be pruned
abbrev pub BriskLife : Engine → Session → Process → Type 0
BriskLife e s p = (l : Life e s p) × Throughout IsBrisk l

abbrev pub BriskDuring : {e : Engine} {p q : Process} → Run e p q → Type 0
BriskDuring here = Unit
BriskDuring (next {q = q} r st) = IsBrisk q × BriskDuring r

extended :
    {e : Engine} {s : Session} {p q : Process}
    → BriskLife e s p
    → (r : Run e p q) → BriskDuring r
    → BriskLife e s q
extended l here b = l
extended l (next r st) (b, bs) = let (l', t) = extended l r bs in (lived l' st, (b, t))

loop_started_ne : (r : Result (Unit {0})) (point : FlushPoint) → loop_started r ≢ flushing point
unfolding loop_started
loop_started_ne (ok _) point h = ground (arith, h)
loop_started_ne (err x) point h = ground (arith, h)

begun-IsBrisk :
    (p : Process) (r : Result (Unit {0})) → p.loop ≡ loop_started r → p.stop ≡ uncalled → IsBrisk p
begun-IsBrisk p r h stop =
    (λ point q. absurd (loop_started_ne r point (sym h ∙ q)), λ point q. ground (arith, stop, q))

module _ (e : Engine) (now : ℕ) (f : FlushLoop) where
  abbrev r : Result (Unit {0})
  r = (start_flush e f).0

  abbrev g : FlushLoop
  g = (start_flush e f).1

  -- `Start` of the flush loop, and the first run of housekeeping
  begun-Life :
      r ≡ ok tt
      → BriskLife e f.repo
          (ticking now (record g { repo = (prune_daily e (prune_cutoff_date now) g.repo).1 }))
  unfolding start_loop prune loop_started
  begun-Life good =
      let unstarted_brisk : IsBrisk (new_process now f) =
        (λ point q. ground (arith, q), λ point q. ground (arith, q)) in
      let loop : Process = start_loop e (new_process now f) in
      let brisk = begun-IsBrisk loop r refl refl in
      let brisk' =
        begun-IsBrisk (record loop { pruner = pruning (prune_cutoff_date now) }) r refl refl in
      subst
        (λ (r' : Result (Unit {0})).
          BriskLife e f.repo
            (record (ticking now
              (record g { repo = (prune_daily e (prune_cutoff_date now) g.repo).1 })) {
                loop = loop_started r';
              }))
        good
        (
          lived (lived (lived (born now f refl) (started refl)) (prune_began refl))
              (pruned (prune_cutoff_date now) refl),
          (brisk', (brisk, (unstarted_brisk, tt))),
        )

module _ (host : Host) (now later : ℕ) where
  -- the program waits for a signal: its database is the file, and its loops tick
  pub record IsTicking (app : App) : Type 0 where
    pub opened : Session
    pub file : opened.committed ≡ host.tables app.svc.cfg.database_path
    pub shut : opened.pending ≡ none
    pub life : BriskLife host.engine opened (ticking now app.flush_loop)

  housekeeping-Life :
      (svc : Service) (s : Session) (f : FlushLoop) (h : Result (Unit {0}) × HousekeepingLoop)
      (app : App)
      → h.1.repo ≡ some (prune_daily host.engine (prune_cutoff_date now) f.repo).1
      → BriskLife host.engine s (
          ticking now
            (record f { repo = (prune_daily host.engine (prune_cutoff_date now) f.repo).1 }))
      → with_housekeeping svc f h ≡ running app
      → BriskLife host.engine s (ticking now app.flush_loop)
  housekeeping-Life svc s f (err x, h) app p life e = ground (arith, e)
  housekeeping-Life svc s f (ok _, h) app p life e =
      subst (λ g. BriskLife host.engine s (ticking now g)) (ground (arith, e, p)) life

  new_housekeeping-repo :
      (s : Session) (svc : Service)
      → (start_housekeeping host.engine now later
          (new_housekeeping_loop (some s) svc.cfg.housekeeping_interval)).1.repo
        ≡ some (prune_daily host.engine (prune_cutoff_date now) s).1
  unfolding new_housekeeping_loop start_housekeeping
  new_housekeeping-repo s svc =
      let h = new_housekeeping_loop (some s) svc.cfg.housekeeping_interval in
      ground (arith, run_once_repo host.engine now later h s refl)

  flush-Life :
      (svc : Service) (f : FlushLoop) (r : Result (Unit {0}) × FlushLoop) (app : App)
      → start_flush host.engine f ≡ r
      → with_flush host now later svc r ≡ running app
      → BriskLife host.engine f.repo (ticking now app.flush_loop)
  flush-Life svc f (err x, g) app p e = ground (arith, e)
  flush-Life svc f (ok _, g) app p e =
      let cutoff = prune_cutoff_date now in
      let begun =
        subst
          (λ g.
            BriskLife host.engine f.repo
              (ticking now (record g { repo = (prune_daily host.engine cutoff g.repo).1 })))
          (ap (λ r. r.1) p) (begun-Life host.engine now f (ap (λ r. r.0) p)) in
      housekeeping-Life svc f.repo g _ app (new_housekeeping-repo g.repo svc) begun
        (with_flush-keep_house host now later svc g app e)

  repository-Life :
      (svc : Service) (r : Result Session) (app : App)
      → with_repository host now later svc r ≡ running app
      → (s : Session) × (r ≡ ok s) × BriskLife host.engine s (ticking now app.flush_loop)
  unfolding new_flush_loop
  repository-Life svc (err x) app e = ground (arith, e)
  repository-Life svc (ok s) app e =
      let f = new_flush_loop s (service_map svc) svc.cfg.flush_interval in
      (s, refl, flush-Life svc f (start_flush host.engine f) app refl e)

  open_and_run-IsTicking :
      (svc : Service) (app : App) → open_and_run host now later svc ≡ running app → IsTicking app
  unfolding open_and_run
  open_and_run-IsTicking svc app e =
      let (same, up, t) = open_and_run-running host now later svc app e in
      let file = host.tables svc.cfg.database_path in
      let (s, opens, life) =
        repository-Life svc (open_repository host.engine file) app (ground (arith, e, up)) in
      let (tables, shut) = (open_repository_lem host.engine file).0 s opens in
      record {
        opened = s;
        file = tables ∙ ap (λ (z : Service). host.tables z.cfg.database_path) (sym same);
        shut = shut;
        life = life;
      }

  service-IsTicking :
      (result : StartupResult) (r : Result (Unit {0}) × Service) (app : App)
      → with_service host now later result r ≡ running app
      → IsTicking app
  service-IsTicking result (err x, svc) app e = ground (arith, e)
  service-IsTicking result (ok _, svc) app e =
      open_and_run-IsTicking (update_from_result result svc) app e

  serve-IsTicking :
      (cfg : Config) (path : GoString) (result : StartupResult) (app : App)
      → serve host now later cfg path result ≡ running app
      → IsTicking app
  unfolding serve
  serve-IsTicking cfg path result app e =
      service-IsTicking result
        (start_service host.kernel host.objects (new_service cfg path host.net)) app e

  result-IsTicking :
      (cfg : Config) (path : GoString) (r : StartupResult × Option StartupError) (app : App)
      → with_result host now later cfg path r ≡ running app
      → IsTicking app
  result-IsTicking cfg path (result, none) app e = serve-IsTicking cfg path result app e
  result-IsTicking cfg path (result, some x) app e =
      serve-IsTicking cfg path result app (ground (arith, e))

  config-IsTicking :
      (path : GoString) (r : Result Config) (app : App)
      → with_config host now later path r ≡ running app
      → IsTicking app
  config-IsTicking path (err x) app e = ground (arith, e)
  config-IsTicking path (ok cfg) app e = elim (Option-cases (validate_config cfg)) [
    | inl v ↦
        result-IsTicking cfg path (validate (new_validator host.system cfg)) app
          (ground (arith, e, v))
    | inr (x, v) ↦ ground (arith, e, v)
  ]

  -- Once the program runs, its flush loop waits in a life of the interleaved model, whose database is
  -- the file of the configuration, with no transaction open.
  pub main-IsTicking :
      (flags : Flags) (app : App) → main host now later flags ≡ running app → IsTicking app
  unfolding main
  main-IsTicking flags app e =
      config-IsTicking flags.ebpf_object_path (load host.files flags.config_path) app e

  -- If the program gets to run on a new database: in every run of its goroutines from there on,
  -- however their calls are interleaved and whichever calls fail, until the year 9999 and as long as
  -- no flush is under way that began on a day old enough to be pruned: if the checkpoint of a key is
  -- of today, the bucket of today holds exactly its raw counters.
  pub running_bucket :
      (flags : Flags) (app : App)
      → IsExact host.engine
      → main host now later flags ≡ running app
      → host.tables app.svc.cfg.database_path ≡ empty_tables
      → {q : Process} → (run : Run host.engine (ticking now app.flush_loop) q) → BriskDuring run
      → Dated q.now
      → (k : RecordKey) (row : CheckpointRow)
      → checkpoint_row q.flush_loop.repo.committed k ≡ some row
      → row.date_utc ≡ current_date_utc q.now
      → counters_of (daily_row q.flush_loop.repo.committed k (current_date_utc q.now)) ≡ row.last
  running_bucket flags app x begun new run brisk d =
      let t = main-IsTicking flags app begun in
      let (l, b) = extended t.life run brisk in
      interleaved_bucket host.engine x t.opened (t.file ∙ new) l d b
