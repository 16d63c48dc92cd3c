-- ===== src/Http/Traffic.antt =====
-- The queries behind `GET /api/v1/traffic`: `queryAll`, `queryToday`, `queryDays`, `queryMonth` and
-- `queryDateRange` of internal/http/http.go. Go gives the entries of a map in any order: the order
-- is a parameter. The clock is read at the times `now` and `later`.
pub mod Sum
pub mod Rows
pub mod Pages
use wlt_traffic.Base.{ℕ, ◌+◌, ◌-◌, ◌*◌, ◌%◌, ◌^◌, Bool, List, [], ◌∷◌, map, codes, if◌then◌else◌}
use wlt_traffic.Exec.{pure, ◌>>=◌}
use wlt_traffic.Calendar.{
  date_of_day, format, format_date_utc, current_date_utc, days_before, day_of,
}
use wlt_traffic.Storage.Types.{
  GoString, RecordKey, TrafficCounters, DailyRecord, TotalRecord, RecordKey-discrete,
}
use wlt_traffic.Storage.Table.{Table, upsert}
use wlt_traffic.Storage.Engine.{Engine, Db}
use wlt_traffic.Storage.Listing.{list_totals, list_daily}
use wlt_traffic.Http.Mac.{mac_to_string, mac_selected}
use wlt_traffic.Http.Page.{page}

pub record TrafficRecord : Type 0 where
  pub interface : GoString
  pub ifindex : ℕ  -- uint32
  pub mac : GoString
  pub ingress_bytes : ℕ
  pub egress_bytes : ℕ
  pub total_bytes : ℕ
  pub ingress_packets : ℕ
  pub egress_packets : ℕ
  pub total_packets : ℕ
  pub window : GoString

-- the literal `TrafficRecord{…}` of both queries
unfoldable pub traffic_record : GoString → RecordKey → TrafficCounters → TrafficRecord
traffic_record window key c = record {
  interface = key.interface_name;
  ifindex = key.ifindex;
  mac = mac_to_string key.mac;
  ingress_bytes = c.ingress_bytes;
  egress_bytes = c.egress_bytes;
  total_bytes = c.bytes;
  ingress_packets = c.ingress_packets;
  egress_packets = c.egress_packets;
  total_packets = c.packets;
  window = window;
}

-- `+=` on uint64
abbrev pub add64 : ℕ → ℕ → ℕ
add64 a b = (a + b) % 2 ^ 64

unfoldable pub add_counters : TrafficCounters → TrafficRecord → TrafficRecord
add_counters c rec = record rec {
  ingress_bytes = add64 rec.ingress_bytes c.ingress_bytes;
  egress_bytes = add64 rec.egress_bytes c.egress_bytes;
  total_bytes = add64 rec.total_bytes c.bytes;
  ingress_packets = add64 rec.ingress_packets c.ingress_packets;
  egress_packets = add64 rec.egress_packets c.egress_packets;
  total_packets = add64 rec.total_packets c.packets;
}

-- `map[aggKey]*TrafficRecord`; `aggKey` has the fields of a RecordKey
abbrev pub Aggregated : Type 0
Aggregated = Table RecordKey TrafficRecord

-- one round of the first loop of `queryDateRange`, for a row that is not skipped
unfoldable pub add_daily_record : GoString → DailyRecord → Aggregated → Aggregated
add_daily_record window d =
    upsert RecordKey-discrete (λ rec _. add_counters d.counters rec) d.key
      (traffic_record window d.key d.counters)

unfoldable pub aggregate : GoString → GoString → Aggregated → List DailyRecord → Aggregated
aggregate mac window agg [] = agg
aggregate mac window agg (d ∷ daily) =
    aggregate mac window (if mac_selected mac d.key.mac then add_daily_record window d agg else agg)
      daily

abbrev pub values : Aggregated → List TrafficRecord
values agg = map (λ (entry : RecordKey × TrafficRecord). entry.1) agg

module _ (e : Engine) where
  unfoldable pub query_all : GoString → GoString → ℕ → ℕ → Db (List TrafficRecord)
  query_all iface mac limit offset = do
    totals ← list_totals e iface
    pure (
        page (λ t. mac_selected mac t.key.mac) (λ t. traffic_record (codes "all") t.key t.counters)
          limit offset totals)

  module _ (order : List TrafficRecord → List TrafficRecord) where
    unfoldable pub query_date_range :
        GoString → GoString → GoString → GoString → ℕ → ℕ → GoString → Db (List TrafficRecord)
    query_date_range start end iface mac limit offset window = do
      daily ← list_daily e start end iface
      pure (
          page (λ r. Bool.true) (λ r. r) limit offset
            (order (values (aggregate mac window [] daily))))

    unfoldable pub query_today : ℕ → GoString → GoString → ℕ → ℕ → Db (List TrafficRecord)
    query_today now iface mac limit offset =
        let today = current_date_utc now in
        query_date_range today today iface mac limit offset (codes "today")

    -- `queryDays` with the name `fmt.Sprintf("%ddays", days)`
    unfoldable pub query_days :
        ℕ → GoString → ℕ → ℕ → GoString → GoString → ℕ → ℕ → Db (List TrafficRecord)
    query_days days name now later iface mac limit offset =
        query_date_range (format_date_utc (days_before (days - 1) later)) (current_date_utc now)
          iface mac limit offset name

    unfoldable pub query_month : ℕ → ℕ → GoString → GoString → ℕ → ℕ → Db (List TrafficRecord)
    query_month now later iface mac limit offset =
        let start = record (date_of_day (day_of now)) { day = 1 } in
        query_date_range (format start) (current_date_utc later) iface mac limit offset
          (codes "month")
