-- ===== src/Main/Laws.antt =====
-- What holds while the program runs, and after it was told to end.
use wlt_traffic.Base.{
  ℕ, ℕ_discrete, ◌≡◌, ◌∙◌, inl, inr, refl, sym, ap, subst, true, ◌||◌, Option, none, some, arith,
  Bool-cases, Option-cases,
}
use wlt_traffic.Error.{Result, ok, err}
use wlt_traffic.Config.{Config, load, validate_config}
use wlt_traffic.Config.Laws.{IsValid, validate_config_iff}
use wlt_traffic.Bootstrap.{StartupResult, StartupError, validate}
use wlt_traffic.Go.Duration.{in_seconds, is_tickable}
use wlt_traffic.Bootstrap.Checks.{new_validator, validate-incapable}
use wlt_traffic.Storage.Types.{GoString}
use wlt_traffic.Storage.Engine.{Engine, Session}
use wlt_traffic.Storage.Open.{open_repository}
use wlt_traffic.Ebpf.Link.{Kernel}
use wlt_traffic.Ebpf.TrafficMap.{TrafficMap}
use wlt_traffic.Ebpf.Attachment.{Collection}
use wlt_traffic.Ebpf.Loader.{Objects}
use wlt_traffic.Runtime.Service.{Service, new_service, start_service, settle, start_loaded}
use wlt_traffic.Runtime.Service.Report.{update_from_result, is_healthy, is_degraded, service_map}
use wlt_traffic.Runtime.Flush.{FlushLoop, new_flush_loop}
use wlt_traffic.Runtime.Flush.Lifecycle.{start_flush}
use wlt_traffic.Runtime.Housekeeping.{
  HousekeepingLoop, new_housekeeping_loop, start_housekeeping, run_once,
}
use wlt_traffic.Main.{
  Host, Flags, App, running, open_and_run, serve, main, with_housekeeping, with_flush, keep_house,
  panics_early, with_repository, with_service, with_result, with_config,
}

with_housekeeping-running :
    (svc : Service) (f : FlushLoop) (r : Result (Unit {0}) × HousekeepingLoop) (app : App)
    → with_housekeeping svc f r ≡ running app
    → (app.svc ≡ svc) × (is_tickable f.interval ≡ true) × (is_tickable r.1.interval ≡ true)
with_housekeeping-running svc f (err x, h) app e = ground (arith, e)
with_housekeeping-running svc f (ok _, h) app e = ground (arith, e)

start_housekeeping-interval :
    (e : Engine) (now later : ℕ) (h : HousekeepingLoop)
    → (start_housekeeping e now later h).1.interval ≡ h.interval
unfolding start_housekeeping run_once
start_housekeeping-interval e now later h = ground arith

start_flush-interval : (e : Engine) (f : FlushLoop) → (start_flush e f).1.interval ≡ f.interval
unfolding start_flush
start_flush-interval e f = ground arith

-- both loops have a ticker
abbrev pub AreTickable : Config → Type 0
AreTickable cfg =
    (is_tickable (in_seconds cfg.flush_interval) ≡ true)
    × (is_tickable (in_seconds cfg.housekeeping_interval) ≡ true)

module _ (host : Host) (now later : ℕ) where
  pub with_flush-keep_house :
      (svc : Service) (f : FlushLoop) (app : App)
      → with_flush host now later svc (ok tt, f) ≡ running app
      → keep_house host now later svc f ≡ running app
  with_flush-keep_house svc f app e = elim (Bool-cases (panics_early host now later f)) [
    | inl b ↦ ground (arith, e, b)
    | inr b ↦ rw (← e, b) refl
  ]

  with_flush-running :
      (svc : Service) (r : Result (Unit {0}) × FlushLoop) (app : App)
      → r.1.interval ≡ in_seconds svc.cfg.flush_interval
      → with_flush host now later svc r ≡ running app
      → (app.svc ≡ svc) × AreTickable svc.cfg
  unfolding new_housekeeping_loop
  with_flush-running svc (err x, f) app i e = ground (arith, e)
  with_flush-running svc (ok _, f) app i e =
      let new = new_housekeeping_loop (some f.repo) svc.cfg.housekeeping_interval in
      let run = start_housekeeping host.engine now later new in
      let (p, q, t) = with_housekeeping-running svc f run app (with_flush-keep_house svc f app e) in
      (
        p,
        (
          ap is_tickable (sym i) ∙ q,
          ap is_tickable (sym (start_housekeeping-interval host.engine now later new)) ∙ t,
        ),
      )

  with_repository-running :
      (svc : Service) (r : Result Session) (app : App)
      → with_repository host now later svc r ≡ running app
      → (app.svc ≡ svc) × AreTickable svc.cfg
  unfolding new_flush_loop
  with_repository-running svc (err x) app e = ground (arith, e)
  with_repository-running svc (ok repo) app e =
      let new = new_flush_loop repo (service_map svc) svc.cfg.flush_interval in
      with_flush-running svc (start_flush host.engine new) app
        (start_flush-interval host.engine new) e

  pub open_and_run-running :
      (svc : Service) (app : App)
      → open_and_run host now later svc ≡ running app
      → (app.svc ≡ svc) × (is_healthy svc || is_degraded svc ≡ true) × AreTickable svc.cfg
  unfolding open_and_run
  open_and_run-running svc app e = elim (Bool-cases (is_healthy svc || is_degraded svc)) [
    | inl b ↦
        let (p, t) =
          with_repository-running svc
            (open_repository host.engine (host.tables svc.cfg.database_path)) app
            (ground (arith, e, b)) in
        (p, b, t)
    | inr b ↦ ground (arith, e, b)
  ]

  -- the service while the program runs
  pub record Serving (cfg : Config) (path : GoString) (result : StartupResult) (app : App)
      : Type 0 where
    pub started : (start_service host.kernel host.objects (new_service cfg path host.net)).0 ≡ ok tt
    pub service :
        app.svc
        ≡ update_from_result result
            (start_service host.kernel host.objects (new_service cfg path host.net)).1
    pub mode : is_healthy app.svc || is_degraded app.svc ≡ true
    pub tickable : AreTickable app.svc.cfg

  with_service-Serving :
      (cfg : Config) (path : GoString) (result : StartupResult) (app : App)
      (run : Result (Unit {0}) × Service)
      → start_service host.kernel host.objects (new_service cfg path host.net) ≡ run
      → with_service host now later result run ≡ running app
      → Serving cfg path result app
  with_service-Serving cfg path result app (err x, svc) same e = ground (arith, e)
  with_service-Serving cfg path result app (ok _, svc) same e =
      let (p, q, t) = open_and_run-running (update_from_result result svc) app e in
      record {
        started = ap (λ (r : Result (Unit {0}) × Service). r.0) same;
        service =
            p ∙ ap (λ (r : Result (Unit {0}) × Service). update_from_result result r.1) (sym same);
        mode = rw p q;
        tickable = subst (λ (s : Service). AreTickable s.cfg) (sym p) t;
      }

  serve-Serving :
      (cfg : Config) (path : GoString) (result : StartupResult) (app : App)
      → serve host now later cfg path result ≡ running app
      → Serving cfg path result app
  unfolding serve
  serve-Serving cfg path result app e =
      with_service-Serving cfg path result app
        (start_service host.kernel host.objects (new_service cfg path host.net)) refl e

  with_result-Serving :
      (cfg : Config) (path : GoString) (r : StartupResult × Option StartupError) (app : App)
      → with_result host now later cfg path r ≡ running app
      → Serving cfg path r.0 app
  with_result-Serving cfg path (result, none) app e = serve-Serving cfg path result app e
  with_result-Serving cfg path (result, some x) app e =
      serve-Serving cfg path result app (ground (arith, e))

  -- the configuration and the checks while the program runs
  with_config-Serving :
      (path : GoString) (r : Result Config) (app : App)
      → with_config host now later path r ≡ running app
      → (cfg : Config) × (r ≡ ok cfg)
        × (validate_config cfg ≡ none)
        × Serving cfg path (validate (new_validator host.system cfg)).0 app
  with_config-Serving path (err x) app e = ground (arith, e)
  with_config-Serving path (ok cfg) app e = elim (Option-cases (validate_config cfg)) [
    | inl v ↦ (
      cfg,
      refl,
      v,
      with_result-Serving cfg path (validate (new_validator host.system cfg)) app
          (ground (arith, e, v)),
    )
    | inr (x, v) ↦ ground (arith, e, v)
  ]

settle-cfg : (s : Service) → (settle s).1.cfg ≡ s.cfg
unfolding settle
settle-cfg s = ground arith

start_loaded-cfg :
    (k : Kernel) (objects : Collection × TrafficMap) (s : Service)
    → (start_loaded k objects s).1.cfg ≡ s.cfg
unfolding start_loaded
start_loaded-cfg k (coll, tm) s = settle-cfg _

start_service-cfg : (k : Kernel) (o : Objects) (s : Service) → (start_service k o s).1.cfg ≡ s.cfg
unfolding start_service
start_service-cfg k o s = grind (arith, start_loaded-cfg k)

module _ (host : Host) (now later : ℕ) (flags : Flags) (app : App)
    (run : main host now later flags ≡ running app) where
  pub serving :
      (cfg : Config) × (load host.files flags.config_path ≡ ok cfg)
      × (validate_config cfg ≡ none)
      × Serving host now later cfg flags.ebpf_object_path
          (validate (new_validator host.system cfg)).0
          app
  unfolding main
  serving =
      with_config-Serving host now later flags.ebpf_object_path (load host.files flags.config_path)
        app run

  pub same_cfg : app.svc.cfg ≡ serving.0
  unfolding update_from_result new_service
  same_cfg =
      let (cfg, p, q, s) = serving in
      ap (λ (svc : Service). svc.cfg) s.service
      ∙ start_service-cfg host.kernel host.objects (new_service cfg flags.ebpf_object_path host.net)

  root :
      (cfg : Config) (svc : Service)
      → svc.status.mode ≡ (validate (new_validator host.system cfg)).0.mode
      → is_healthy svc || is_degraded svc ≡ true
      → host.system.uid ≡ 0
  unfolding is_healthy is_degraded
  root cfg svc same h = elim (ℕ_discrete host.system.uid 0) [
    | yes p ↦ p
    | no p ↦ elim (validate-incapable host.system cfg p) [
      | inl q ↦ ground (arith, h, same, q)
      | inr q ↦ ground (arith, h, same, q)
    ]
  ]

  -- While the program runs, its configuration is the loaded one and a valid one, and the mode and
  -- the lists of the status are those of the startup checks, whatever `Start` of the service has
  -- found out; the mode is healthy or degraded, the user is root, and both intervals are positive
  -- int64 durations.
  pub main_running :
      let cfg = app.svc.cfg in
      let status = app.svc.status in
      let result = (validate (new_validator host.system cfg)).0 in
      (load host.files flags.config_path ≡ ok cfg)
      × IsValid cfg
      × (status.mode ≡ result.mode)
      × (status.attached_interfaces ≡ result.attached_interfaces)
      × (status.failed_interfaces ≡ result.failed_interfaces)
      × (is_healthy app.svc || is_degraded app.svc ≡ true)
      × (host.system.uid ≡ 0)
      × AreTickable cfg
  unfolding update_from_result is_healthy is_degraded
  main_running =
      let (cfg, p, q, s) = serving in
      rw same_cfg (
        p,
        (validate_config_iff cfg).0 q,
        ap (λ (svc : Service). svc.status.mode) s.service,
        ap (λ (svc : Service). svc.status.attached_interfaces) s.service,
        ap (λ (svc : Service). svc.status.failed_interfaces) s.service,
        s.mode,
        root cfg app.svc (ap (λ (svc : Service). svc.status.mode) s.service) s.mode,
        subst AreTickable same_cfg s.tickable,
      )
