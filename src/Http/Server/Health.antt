-- ===== src/Http/Server/Health.antt =====
-- The health check after a flush.
use wlt_traffic.Base.{
  ℕ, ◌*◌, ◌+◌, ◌≤◌, ◌<◌, ◌≡◌, ◌↔◌, subst, ap, ◌∙◌, ◌^◌, true, none, some, List, length, arith,
}
use wlt_traffic.Calendar.{current_date_utc}
use wlt_traffic.Storage.Engine.{Engine, IsReliable}
use wlt_traffic.Ebpf.TrafficMap.{BpfMap}
use wlt_traffic.Runtime.Flush.{FlushLoop, kernel_map, flush, flush_end, is_stale}
use wlt_traffic.Runtime.Flush.Account.{Entry}
use wlt_traffic.Runtime.Flush.Complete.{Lists, Accepted}
use wlt_traffic.Runtime.Flush.Correct.{flush_total}
use wlt_traffic.Runtime.Service.{Service}
use wlt_traffic.Runtime.Service.Report.{is_healthy}
use wlt_traffic.Go.Duration.{is_tickable}
use wlt_traffic.Http.Server.{handle_healthz}

flush-interval :
    (e : Engine) (fuel started finished : ℕ) (f : FlushLoop)
    → (flush e fuel started finished f).1.interval ≡ f.interval
unfolding flush flush_end
flush-interval e fuel started finished f = ground arith

healthz-fresh :
    (now t : ℕ) (svc : Service) (f : FlushLoop)
    → is_healthy svc ≡ true
    → is_tickable f.interval ≡ true
    → f.last_flush ≡ some t
    → ((handle_healthz now svc f).status ≡ 200)
      ↔ ((f.interval < 2 ^ 62) × (now ≤ t + f.interval * 2))
unfolding handle_healthz is_stale is_tickable
healthz-fresh now t svc f healthy ticks last = ground (arith, healthy, ticks, last)

module _ (e : Engine) (fuel started finished : ℕ) (f : FlushLoop) (m : BpfMap)
    (there : kernel_map f.traffic_map ≡ some m) where
  -- If no call of the driver fails, the map lists entries that the database accepts, there is more
  -- fuel than entries, no transaction is open, and the interval is a positive int64, as that of a loop
  -- that runs: after a flush the health check of a healthy service answers 200 exactly if the interval
  -- is less than 2 ^ 62 nanoseconds and at most two intervals have passed since the end of the flush.
  pub healthz-flush :
      (es : List Entry)
      → Lists m none es
      → length es < fuel
      → IsReliable e
      → f.repo.pending ≡ none
      → Accepted (current_date_utc started) f.repo.committed es
      → is_tickable f.interval ≡ true
      → (svc : Service) → is_healthy svc ≡ true
      → (now : ℕ)
      → ((handle_healthz now svc (flush e fuel started finished f).1).status ≡ 200)
        ↔ ((f.interval < 2 ^ 62) × (now ≤ finished + f.interval * 2))
  healthz-flush es listed enough r shut a ticks svc healthy now =
      let g = (flush e fuel started finished f).1 in
      let same = flush-interval e fuel started finished f in
      let done = flush_total e fuel started finished f m there es listed enough r shut a in
      subst
        (λ i. ((handle_healthz now svc g).status ≡ 200) ↔ ((i < 2 ^ 62) × (now ≤ finished + i * 2)))
        same (healthz-fresh now finished svc g healthy (ap is_tickable same ∙ ticks) done.2)
