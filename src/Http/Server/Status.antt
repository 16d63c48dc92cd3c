-- ===== src/Http/Server/Status.antt =====
-- `GET /healthz` and `GET /api/v1/status` side by side.
use wlt_traffic.Base.{ℕ, ℕ_discrete, ◌≡◌, ◌≢◌, ◌↔◌, ◌⊎◌, inl, inr, refl, codes, Bool-cases, arith}
use wlt_traffic.Bootstrap.{Mode, unset, healthy, degraded, failed}
use wlt_traffic.Storage.Types.{GoString-discrete}
use wlt_traffic.Runtime.Flush.{FlushLoop, is_stale}
use wlt_traffic.Runtime.Service.{Service}
use wlt_traffic.Runtime.Service.Report.{is_healthy, is_degraded, is_failed}
use wlt_traffic.Http.Server.{handle_healthz, status_mode, is_text}

Mode-cases : (m : Mode) → m ≢ unset → (m ≡ healthy) ⊎ (m ≡ degraded) ⊎ (m ≡ failed)
Mode-cases unset h = ground arith
Mode-cases healthy h = inl refl
Mode-cases degraded h = inr (inl refl)
Mode-cases failed h = inr (inr refl)

-- The health check answers 200 exactly while the status shows the mode "healthy", once the startup
-- checks have set a mode.
pub healthz-status :
    (now : ℕ) (svc : Service) (flush : FlushLoop)
    → svc.status.mode ≢ unset
    → ((handle_healthz now svc flush).status ≡ 200) ↔ (status_mode now svc flush ≡ codes "healthy")
unfolding handle_healthz status_mode is_healthy is_degraded is_failed is_text GoString-discrete
    ℕ_discrete
healthz-status now svc flush h = elim (Mode-cases svc.status.mode h) [
  | inl m ↦ elim (Bool-cases (is_stale now flush)) [
    | inl b ↦ rw (m, b) ground arith
    | inr b ↦ rw (m, b) ground arith
  ]
  | inr (inl m) ↦ elim (Bool-cases (is_stale now flush)) [
    | inl b ↦ rw (m, b) ground arith
    | inr b ↦ rw (m, b) ground arith
  ]
  | inr (inr m) ↦ elim (Bool-cases (is_stale now flush)) [
    | inl b ↦ rw (m, b) ground arith
    | inr b ↦ rw (m, b) ground arith
  ]
]
