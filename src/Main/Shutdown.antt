-- ===== src/Main/Shutdown.antt =====
-- The end of the program: the last flush, and the links of the kernel.
use mathlib.Core.List.{Permᴰ}
use wlt_traffic.Base.{
  ℕ, ◌≡◌, ◌∙◌, ◌<◌, refl, sym, ap, subst, true, false, none, some, List, [], AreDistinct, length,
  arith,
}
use wlt_traffic.Error.{Result, ok, err}
use wlt_traffic.Config.{Config}
use wlt_traffic.Bootstrap.{StartupResult, validate}
use wlt_traffic.Calendar.{current_date_utc}
use wlt_traffic.Bootstrap.Checks.{new_validator}
use wlt_traffic.Storage.Types.{GoString}
use wlt_traffic.Storage.Engine.{IsReliable}
use wlt_traffic.Ebpf.TrafficMap.{BpfMap, TrafficMap}
use wlt_traffic.Ebpf.Link.{Kernel, Net}
use wlt_traffic.Ebpf.Attachment.{AttachmentManager, Collection}
use wlt_traffic.Ebpf.Attachment.Moves.{CloseFault}
use wlt_traffic.Ebpf.Attachment.History.{idle}
use wlt_traffic.Ebpf.Loader.{Objects, new_loader, prepare_memlock, load_traffic_objects}
use wlt_traffic.Runtime.Flush.{FlushLoop, kernel_map}
use wlt_traffic.Runtime.Flush.Account.{Entry, account_all}
use wlt_traffic.Runtime.Flush.Complete.{Lists, Accepted}
use wlt_traffic.Runtime.Flush.Correct.{flush_total}
use wlt_traffic.Runtime.Flush.Lifecycle.{stop_flush}
use wlt_traffic.Runtime.Service.{Service, new_service, start_service, stop_service}
use wlt_traffic.Runtime.Service.Report.{update_from_result}
use wlt_traffic.Runtime.Service.Start.{Loads}
use wlt_traffic.Runtime.Service.Shutdown.{start-stop}
use wlt_traffic.Main.{Host, Flags, App, running, main, shut_down}
use wlt_traffic.Main.Laws.{serving, same_cfg}

-- a service that has started has loaded its programs
module _ (k : Kernel) (o : Objects) (cfg : Config) (path : GoString) (net : Net) where
  started-Loads :
      (p : Result (Unit {0})) (r : Result (Collection × TrafficMap))
      → prepare_memlock o (new_loader path) ≡ p
      → load_traffic_objects o (new_loader path) ≡ r
      → (start_service k o (new_service cfg path net)).0 ≡ ok tt
      → (objects : Collection × TrafficMap) × Loads o path objects
  unfolding start_service new_service
  started-Loads (err x) r p q h = ground (arith, p, h)
  started-Loads (ok u) (err x) p q h = ground (arith, p, q, h)
  started-Loads (ok u) (ok objects) p q h = (objects, record { prepared = p; loaded = q })

stop_service-updated :
    (k : Kernel) (order : List GoString → List GoString) (result : StartupResult) (s : Service)
    → (stop_service k order (update_from_result result s)).manager
      ≡ (stop_service k order s).manager
unfolding stop_service update_from_result
stop_service-updated k order result s = refl

module _ (k : Kernel) (o : Objects) (cfg : Config) (path : GoString) (calls : ℕ)
    (order : List GoString → List GoString)
    (perm : (names : List GoString) → Permᴰ (order names) names)
    (distinct : AreDistinct cfg.interfaces) (closes : ¬ CloseFault k) where
  pub started_stop :
      (net : Net)
      → net ≡ idle calls
      → let run = start_service k o (new_service cfg path net) in
        run.0 ≡ ok tt → (stop_service k order run.1).manager.net.links ≡ []
  started_stop net clean =
      subst
        (λ n.
          let run = start_service k o (new_service cfg path n) in
          run.0 ≡ ok tt → (stop_service k order run.1).manager.net.links ≡ [])
        (sym clean)
        (λ h.
          let (objects, loads) =
            started-Loads k o cfg path (idle calls) (prepare_memlock o (new_loader path))
              (load_traffic_objects o (new_loader path)) refl refl h in
          start-stop k o cfg path calls objects loads order perm distinct closes)

module _ (host : Host) (order : List GoString → List GoString) (fuel started finished : ℕ)
    (app : App) where
  -- If the flush loop runs, no call of the driver fails, the map lists entries that the database
  -- accepts, there is more fuel than entries, and no transaction is open, then the end of the
  -- program has accounted for exactly those entries.
  pub shut_down_flushes :
      (m : BpfMap) (es : List Entry)
      → app.flush_loop.stopped ≡ false
      → kernel_map app.flush_loop.traffic_map ≡ some m
      → Lists m none es
      → length es < fuel
      → IsReliable host.engine
      → app.flush_loop.repo.pending ≡ none
      → Accepted (current_date_utc started) app.flush_loop.repo.committed es
      → let f = (shut_down host order fuel started finished app).flush_loop in
        f.repo.committed
        ≡ account_all host.engine (current_date_utc started) es app.flush_loop.repo.committed
  unfolding shut_down stop_flush
  shut_down_flushes m es live there listed enough r shut a =
      let g : FlushLoop = record app.flush_loop { stopped = true } in
      let done =
        flush_total host.engine fuel started finished g m there es listed enough r shut a in
      ground (arith, live, done.0, done.1)

  module _ (now later calls : ℕ) (flags : Flags)
      (perm : (names : List GoString) → Permᴰ (order names) names) where
    -- If the kernel holds no link when the program starts, the program gets to run, no interface is
    -- configured twice and every link closes, then the kernel holds no link when the program ends,
    -- in whatever order Go gives the interfaces.
    pub shut_down_links :
        main host now later flags ≡ running app
        → host.net ≡ idle calls
        → AreDistinct app.svc.cfg.interfaces
        → ¬ CloseFault host.kernel
        → (shut_down host order fuel started finished app).svc.manager.net.links ≡ []
    unfolding shut_down
    shut_down_links run clean distinct closes =
        let (cfg, p, q, s) = serving host now later flags app run in
        let path = flags.ebpf_object_path in
        let result = (validate (new_validator host.system cfg)).0 in
        let begun = start_service host.kernel host.objects (new_service cfg path host.net) in
        let same = same_cfg host now later flags app run in
        ap (λ (svc : Service). (stop_service host.kernel order svc).manager.net.links) s.service
        ∙ ap (λ (m : AttachmentManager). m.net.links)
            (stop_service-updated host.kernel order result begun.1)
        ∙ started_stop host.kernel host.objects cfg path calls order perm
            (subst (λ (c : Config). AreDistinct c.interfaces) same distinct) closes host.net clean
            s.started
