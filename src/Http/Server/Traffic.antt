-- ===== src/Http/Server/Traffic.antt =====
-- What `GET /api/v1/traffic` answers.
use wlt_traffic.Base.{
  ℕ, zero, suc, ◌≤◌, ◌≡◌, refl, Bool, true, false, ◌&&◌, List, [], ◌∷◌, take, drop, length, codes,
  arith, if◌then◌else◌,
}
use wlt_traffic.Error.{Result, Returns, succeeded}
use wlt_traffic.Calendar.{
  current_date_utc, format_date_utc, days_before, format, date_of_day, day_of,
}
use wlt_traffic.Storage.Types.{GoString}
use wlt_traffic.Storage.Engine.{Engine, Session, Db, IsReliable}
use wlt_traffic.Storage.Listing.Laws.{Reads}
use wlt_traffic.Exec.{pure}
use wlt_traffic.Http.Page.{page, page_from, page_lem}
use wlt_traffic.Base.Sort.{keep}
use wlt_traffic.Http.Params.{limit_of, offset_of}
use wlt_traffic.Http.Params.Laws.{limit_bounds}
use wlt_traffic.Http.Traffic.{
  TrafficRecord, query_today, query_days, query_month, query_date_range, values,
}
use wlt_traffic.Http.Traffic.Pages.{query_all-Reads, query_date_range-Reads, all_rows, range_map}
use wlt_traffic.Http.Server.{
  Response, Body, traffic_body, is_text, window_of, is_valid_window, is_valid_mac, query_window,
  handle_traffic, traffic_response,
}

length-take_le : {A : Type 0} (n : ℕ) (xs : List A) → length (take n xs) ≤ n
length-take_le zero xs = omega arith
length-take_le (suc n) [] = omega arith
length-take_le (suc n) (x ∷ xs) = omega (arith, length-take_le n xs)

no_page : (limit offset : ℕ) → [] ≡ take limit (drop {A = TrafficRecord} offset [])
unfolding page page_from keep
no_page limit offset = page_lem (λ (r : TrafficRecord). true) (λ r. r) limit offset []

-- what a client sees of an answer
abbrev pub records_in : Body → List TrafficRecord
records_in (traffic_body t) = t.records
records_in _ = []

abbrev pub accepted : (GoString → GoString) → Bool
accepted get =
    is_valid_window (window_of (get (codes "window"))) && is_valid_mac (get (codes "mac"))

module _ (e : Engine) (order : List TrafficRecord → List TrafficRecord) (now later : ℕ) where
  -- the answer is a page of `rows`
  pub record Answers (m : Db (List TrafficRecord)) (limit offset : ℕ) (s : Session) : Type 0 where
    pub rows : List TrafficRecord
    pub reads : Reads e m (take limit (drop offset rows)) s

  module _ (iface mac : GoString) (limit offset : ℕ) (s : Session) where
    range-Answers :
        (start end window : GoString)
        → Answers (query_date_range e order start end iface mac limit offset window) limit offset s
    range-Answers start end window = record {
      rows = order (values (range_map window start end iface mac s));
      reads = query_date_range-Reads e iface mac limit offset s order start end window;
    }

    nothing-Reads : (rows : List TrafficRecord) → [] ≡ rows → Reads e (pure []) rows s
    nothing-Reads rows p = record {
      committed = refl;
      pending = refl;
      returns = p;
      succeeds = λ r. refl;
    }

    if-Answers :
        (b : Bool) (m n : Db (List TrafficRecord))
        → Answers m limit offset s
        → Answers n limit offset s
        → Answers (if b then m else n) limit offset s
    if-Answers true m n p q = p
    if-Answers false m n p q = q

    pub query_window-Answers :
        (window : GoString)
        → Answers (query_window e order now later window iface mac limit offset) limit offset s
    unfolding query_window query_today query_days query_month
    query_window-Answers window =
        let today = current_date_utc now in
        let first = format (record (date_of_day (day_of now)) { day = 1 }) in
        if-Answers (is_text window (codes "all")) _ _
          (record {
            rows = all_rows iface mac s;
            reads = query_all-Reads e iface mac limit offset s;
          })
          (if-Answers (is_text window (codes "today")) _ _
            (range-Answers today today (codes "today"))
            (if-Answers (is_text window (codes "7days")) _ _
              (range-Answers (format_date_utc (days_before 6 later)) today (codes "7days"))
              (if-Answers (is_text window (codes "30days")) _ _
                (range-Answers (format_date_utc (days_before 29 later)) today (codes "30days"))
                (if-Answers (is_text window (codes "month")) _ _
                  (range-Answers first (current_date_utc later) (codes "month"))
                  (record {
                    rows = [];
                    reads = nothing-Reads (take limit (drop offset [])) (no_page limit offset);
                  })))))

  module _ (window : GoString) (limit offset : ℕ) (r : Result (List TrafficRecord) × Session) where
    abbrev answer : Response × Session
    answer = traffic_response e order now later window limit offset r

    answer_session : answer.1 ≡ r.1
    answer_session = ground arith

    answer_status : succeeded r.0 ≡ true → answer.0.status ≡ 200
    answer_status = ground arith

    answer_records :
        (rows : List TrafficRecord)
        → Returns r.0 rows
        → length (records_in answer.0.body) ≤ length rows
    answer_records rows h = ground arith

  module _ (get : GoString → GoString) (s : Session) where
    abbrev asked_window : GoString
    asked_window = window_of (get (codes "window"))

    abbrev asked_limit : ℕ
    asked_limit = limit_of (get (codes "limit"))

    abbrev asked_offset : ℕ
    asked_offset = offset_of (get (codes "offset"))

    abbrev asked : Db (List TrafficRecord)
    asked =
        query_window e order now later asked_window (get (codes "interface")) (get (codes "mac"))
          asked_limit asked_offset

    asked-Answers : Answers asked asked_limit asked_offset s
    asked-Answers =
        query_window-Answers (get (codes "interface")) (get (codes "mac")) asked_limit asked_offset
          s asked_window

  -- A request changes nothing in the database, whatever its parameters and whichever calls of the
  -- driver fail.
  pub handle_traffic_keeps :
      (get : GoString → GoString) (s : Session)
      → ((handle_traffic e order now later get s).1.committed ≡ s.committed)
        × ((handle_traffic e order now later get s).1.pending ≡ s.pending)
  unfolding handle_traffic
  handle_traffic_keeps get s =
      let p = asked-Answers get s in
      let q =
        answer_session (asked_window get s) (asked_limit get s) (asked_offset get s)
          (asked get s s) in
      ground (arith, p.reads.committed, p.reads.pending, q)

  -- The status is 400 exactly for a window or a MAC address that is not valid, and then the database
  -- is not called; otherwise it is 200 where no call of the driver fails.
  pub handle_traffic_status :
      (get : GoString → GoString) (s : Session)
      → IsReliable e
      → (handle_traffic e order now later get s).0.status ≡ (if accepted get then 200 else 400)
  unfolding handle_traffic
  handle_traffic_status get s r =
      let p = asked-Answers get s in
      let q =
        answer_status (asked_window get s) (asked_limit get s) (asked_offset get s) (asked get s s)
          (p.reads.succeeds r) in
      ground (arith, q)

  -- However large the parameter, at most 1000 records are answered, and no more than the limit.
  pub handle_traffic_limit :
      (get : GoString → GoString) (s : Session)
      → (length (records_in (handle_traffic e order now later get s).0.body)
          ≤ limit_of (get (codes "limit")))
        × (limit_of (get (codes "limit")) ≤ 1000)
  unfolding handle_traffic
  handle_traffic_limit get s =
      let p = asked-Answers get s in
      let q =
        answer_records (asked_window get s) (asked_limit get s) (asked_offset get s) (asked get s s)
          (take (asked_limit get s) (drop (asked_offset get s) p.rows)) p.reads.returns in
      let (low, high) = limit_bounds (get (codes "limit")) in
      let n = length-take_le (asked_limit get s) (drop (asked_offset get s) p.rows) in
      (ground (arith, n, q), high)
