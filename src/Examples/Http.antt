-- ===== src/Examples/Http.antt =====
-- Requests for the traffic of a database with one address.
use mathlib.Core.List.Permᴰ
use wlt_traffic.Base.{
  ℕ, ◌==◌, ◌≤◌, ◌≡◌, ◌≢◌, ◌↔◌, refl, true, none, List, [], ◌∷◌, All, take, drop, map, length, codes,
  ℕ_discrete, arith, if◌then◌else◌,
}
use wlt_traffic.Base.Sort.{keep, sort_by, insert_by}
use wlt_traffic.Bootstrap.{Mode, degraded}
use wlt_traffic.Config.{default_config}
use wlt_traffic.Storage.Types.{GoString, GoString-discrete, RecordKey}
use wlt_traffic.Storage.Engine.{Session}
use wlt_traffic.Storage.Listing.{mac_bytes, select_daily, on_interface, daily_key_leb, key_leb}
use wlt_traffic.Storage.Text.{text_leb}
use wlt_traffic.Storage.Listing.Laws.{Reads}
use wlt_traffic.Runtime.Flush.{raw_counters}
use wlt_traffic.Runtime.Service.{Service, new_service}
use wlt_traffic.Http.Mac.{matches_mac, mac_selected}
use wlt_traffic.Http.Mac.Laws.{IsMac, mac_values, mac_selected_lem}
use wlt_traffic.Http.Page.{page, page_lem}
use wlt_traffic.Http.Params.{limit_of, offset_of}
use wlt_traffic.Http.Params.Laws.{itoa, signed_numbers}
use wlt_traffic.Http.Traffic.{TrafficRecord, values, query_all, query_date_range}
use wlt_traffic.Http.Traffic.Sum.{IsUint64, wrapped}
use wlt_traffic.Http.Traffic.Rows.{Summed}
use wlt_traffic.Http.Traffic.Pages.{all_rows, range_map, query_all-Reads, query_date_range_lem}
use wlt_traffic.Http.Server.{handle_traffic, handle_healthz, status_mode}
use wlt_traffic.Http.Server.Traffic.{
  accepted, records_in, handle_traffic_status, handle_traffic_limit,
}
use wlt_traffic.Http.Server.Status.{healthz-status}
use wlt_traffic.Examples.Data.{quiet, quiet-IsReliable, mac_1, counter_of, day_1, day_2, new_loop}

abbrev eth0 : RecordKey
eth0 = record { interface_name = codes "eth0"; ifindex = 2; mac = mac_1 }

-- two days of traffic
abbrev stored : Session
stored = record {
  committed = record {
    totals = (eth0, raw_counters (counter_of 1500 3)) ∷ [];
    daily =
        (record { key = eth0; date_utc = day_1 }, raw_counters (counter_of 1000 2))
        ∷ (record { key = eth0; date_utc = day_2 }, raw_counters (counter_of 500 1))
        ∷ [];
    checkpoints = [];
  };
  pending = none;
  calls = 0;
}

abbrev unordered : List TrafficRecord → List TrafficRecord
unordered records = records

-- `?mac=AA:BB:CC:DD:EE:FF`
abbrev upper : GoString
upper = codes "AA:BB:CC:DD:EE:FF"

mac_1-IsMac : IsMac mac_1
mac_1-IsMac = omega arith

mac_selected_lem_example : (mac_selected upper mac_1 ≡ true) ↔ (mac_bytes mac_1 ≡ mac_values upper)
unfolding matches_mac
mac_selected_lem_example = mac_selected_lem upper mac_1 mac_1-IsMac refl

page_lem_example :
    page (λ (n : ℕ). true) (λ n. n) 2 1 (3 ∷ 4 ∷ 5 ∷ 6 ∷ [])
    ≡ take 2 (drop 1 (map (λ n. n) (keep (λ (n : ℕ). true) (3 ∷ 4 ∷ 5 ∷ 6 ∷ []))))
page_lem_example = page_lem (λ (n : ℕ). true) (λ n. n) 2 1 (3 ∷ 4 ∷ 5 ∷ 6 ∷ [])

signed_numbers_example :
    (limit_of (itoa 5000) ≡ 100)
    × (offset_of (itoa 5000) ≡ 5000)
    × (limit_of (b'-' ∷ itoa 5000) ≡ 100)
    × (offset_of (b'-' ∷ itoa 5000) ≡ 0)
signed_numbers_example = signed_numbers 5000 (omega arith)

query_all-Reads_example :
    Reads quiet
      (query_all quiet [] upper 100 0)
      (take 100 (drop 0 (all_rows [] upper stored)))
      stored
query_all-Reads_example = query_all-Reads quiet [] upper 100 0 stored

stored-IsUint64 : All (λ d. IsUint64 d.counters) (select_daily day_1 day_2 [] stored.committed)
unfolding select_daily keep sort_by insert_by on_interface text_leb daily_key_leb key_leb IsUint64
    wrapped GoString-discrete ℕ_discrete
stored-IsUint64 = (refl, (refl, tt))

query_date_range_lem_example :
    let rows =
      take 100
        (drop 0 (unordered (values (range_map (codes "7days") day_1 day_2 [] upper stored)))) in
    Reads quiet
      (query_date_range quiet unordered day_1 day_2 [] upper 100 0 (codes "7days"))
      rows
      stored
    × All (Summed upper (codes "7days") (select_daily day_1 day_2 [] stored.committed)) rows
query_date_range_lem_example =
    query_date_range_lem quiet [] upper 100 0 stored unordered day_1 day_2 (codes "7days")
      Permᴰ.refl stored-IsUint64

-- the query `?mac=AA:BB:CC:DD:EE:FF&limit=5000`, whose other parameters are missing
abbrev request : GoString → GoString
request [] = []
request (c ∷ s) = if c == b'm' then upper else if c == b'l' then codes "5000" else []

handle_traffic_status_example :
    (handle_traffic quiet unordered 0 0 request stored).0.status
    ≡ (if accepted request then 200 else 400)
handle_traffic_status_example =
    handle_traffic_status quiet unordered 0 0 request stored quiet-IsReliable

handle_traffic_limit_example :
    (length (records_in (handle_traffic quiet unordered 0 0 request stored).0.body)
      ≤ limit_of (request (codes "limit")))
    × (limit_of (request (codes "limit")) ≤ 1000)
handle_traffic_limit_example = handle_traffic_limit quiet unordered 0 0 request stored

abbrev new : Service
new = new_service default_config [] (record { calls = 0; links = [] })

abbrev service : Service
service = record new { status = record new.status { mode = degraded } }

service_mode : service.status.mode ≢ Mode.unset
service_mode = ground arith

healthz-status_example :
    ((handle_healthz 7 service new_loop).status ≡ 200)
    ↔ (status_mode 7 service new_loop ≡ codes "healthy")
healthz-status_example = healthz-status 7 service new_loop service_mode
