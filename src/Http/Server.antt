-- ===== src/Http/Server.antt =====
-- The handlers of internal/http/http.go. A request is the function `Get` of its query: the value
-- of a parameter, empty where it is missing.
pub mod Traffic
pub mod Status
pub mod Health
use wlt_traffic.Base.{
  ℕ, ◌/◌, Bool, true, false, ◌&&◌, ◌||◌, not, Option, none, some, List, [], ◌∷◌, ite, codes,
  if◌then◌else◌,
}
use wlt_traffic.Error.{Error, Result, ok, err}
use wlt_traffic.Exec.{pure}
use wlt_traffic.Calendar.{second}
use wlt_traffic.Config.{Config}
use wlt_traffic.Storage.Types.{GoString, GoString-discrete}
use wlt_traffic.Storage.Engine.{Engine, Session, Db}
use wlt_traffic.Runtime.Flush.{FlushLoop, get_last_flush, get_flush_error, is_stale}
use wlt_traffic.Runtime.Service.{Service}
use wlt_traffic.Runtime.Service.Report.{is_healthy, is_degraded, is_failed, get_status}
use wlt_traffic.Http.Mac.{matches_mac}
use wlt_traffic.Http.Params.{limit_of, offset_of}
use wlt_traffic.Http.Traffic.{TrafficRecord, query_all, query_today, query_days, query_month}

pub record StatusBody : Type 0 where
  pub mode : GoString
  pub configured_ifaces : List GoString
  pub attached_ifaces : List GoString
  pub failed_ifaces : List GoString
  pub last_flush_timestamp : ℕ
  -- `err.Error()`, empty for `none`
  pub flush_error : Option Error
  pub database_path : GoString

pub record TrafficBody : Type 0 where
  pub window : GoString
  pub limit : ℕ
  pub offset : ℕ
  pub records : List TrafficRecord

pub data Body : Type 0 where
  no_body : Body
  -- "invalid window, …" and "invalid mac format, …"
  invalid_window invalid_mac : Body
  -- `err.Error()`
  error_body : Error → Body
  status_body : StatusBody → Body
  traffic_body : TrafficBody → Body

pub record Response : Type 0 where
  pub status : ℕ
  pub body : Body

-- `s == text` on Go strings
unfoldable pub is_text : GoString → GoString → Bool
is_text s text = ite (GoString-discrete s text) true false

unfoldable pub handle_healthz : ℕ → Service → FlushLoop → Response
handle_healthz now svc flush = record {
  status = if is_healthy svc && not (is_stale now flush) then 200 else 503;
  body = no_body;
}

abbrev unix_time : Option ℕ → ℕ
unix_time none = 0
unix_time (some t) = t / second

-- the field "mode" of the status
unfoldable pub status_mode : ℕ → Service → FlushLoop → GoString
status_mode now svc flush =
    let mode =
      if is_degraded svc
      then codes "degraded"
      else if is_failed svc
      then codes "failed"
      else codes "healthy" in
    if is_stale now flush && is_text mode (codes "healthy") then codes "degraded" else mode

unfoldable pub handle_status : Config → ℕ → Service → FlushLoop → Response
handle_status cfg now svc flush = record {
  status = 200;
  body = status_body (record {
    mode = status_mode now svc flush;
    configured_ifaces = cfg.interfaces;
    attached_ifaces = (get_status svc).attached_interfaces;
    failed_ifaces = (get_status svc).failed_interfaces;
    last_flush_timestamp = unix_time (get_last_flush flush);
    flush_error = get_flush_error flush;
    database_path = cfg.database_path;
  });
}

-- `query.Get("window")`, "today" where it is empty
unfoldable pub window_of : GoString → GoString
window_of [] = codes "today"
window_of (c ∷ s) = c ∷ s

-- `validWindows[window]`
unfoldable pub is_valid_window : GoString → Bool
is_valid_window w =
    is_text w (codes "all")
    || is_text w (codes "30days")
    || is_text w (codes "7days")
    || is_text w (codes "today")
    || is_text w (codes "month")

-- `macFilter == "" || macRegex.MatchString(macFilter)`
unfoldable pub is_valid_mac : GoString → Bool
is_valid_mac [] = true
is_valid_mac (c ∷ s) = matches_mac (c ∷ s)

module _ (e : Engine) (order : List TrafficRecord → List TrafficRecord) (now later : ℕ) where
  -- the `switch window`
  unfoldable pub query_window : GoString → GoString → GoString → ℕ → ℕ → Db (List TrafficRecord)
  query_window window iface mac limit offset =
      if is_text window (codes "all")
      then query_all e iface mac limit offset
      else if is_text window (codes "today")
      then query_today e order now iface mac limit offset
      else if is_text window (codes "7days")
      then query_days e order 7 (codes "7days") now later iface mac limit offset
      else if is_text window (codes "30days")
      then query_days e order 30 (codes "30days") now later iface mac limit offset
      else if is_text window (codes "month")
      then query_month e order now later iface mac limit offset
      else pure []

  abbrev traffic_response :
      GoString → ℕ → ℕ → Result (List TrafficRecord) × Session → Response × Session
  traffic_response window limit offset (ok records, s) = (
    record {
      status = 200;
      body =
          traffic_body
            (record { window = window; limit = limit; offset = offset; records = records });
    },
    s,
  )
  traffic_response window limit offset (err x, s) =
      (record { status = 500; body = error_body x }, s)

  unfoldable pub handle_traffic : (GoString → GoString) → Session → Response × Session
  handle_traffic get s =
      let window = window_of (get (codes "window")) in
      let iface = get (codes "interface") in
      let mac = get (codes "mac") in
      let limit = limit_of (get (codes "limit")) in
      let offset = offset_of (get (codes "offset")) in
      let answer =
        traffic_response window limit offset (query_window window iface mac limit offset s) in
      if not (is_valid_window window)
      then (record { status = 400; body = invalid_window }, s)
      else if not (is_valid_mac mac)
      then (record { status = 400; body = invalid_mac }, s)
      else answer
