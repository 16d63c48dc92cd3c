-- ===== src/Http/Traffic/Pages.antt =====
-- The rows that the queries return.
use mathlib.Core.List.{Permᴰ}
use wlt_traffic.Base.{
  ℕ, ◌≡◌, refl, ap, subst, ◌∙◌, true, List, [], ◌∷◌, All, map, take, drop, codes,
}
use wlt_traffic.Base.Sort.{keep}
use wlt_traffic.Storage.Types.{GoString}
use wlt_traffic.Storage.Engine.{Engine, Session}
use wlt_traffic.Storage.Listing.{select_daily, select_totals, list_daily, list_totals}
use wlt_traffic.Storage.Listing.Laws.{Reads, computed-Reads, list_daily-Reads, list_totals-Reads}
use wlt_traffic.Http.Mac.{mac_selected}
use wlt_traffic.Http.Page.{page, page_lem}
use wlt_traffic.Http.Traffic.{
  TrafficRecord, traffic_record, Aggregated, aggregate, values, query_all, query_date_range,
}
use wlt_traffic.Http.Traffic.Rows.{Summed, page-Summed}
use wlt_traffic.Http.Traffic.Sum.{IsUint64}

-- the rows of `window=all`
abbrev pub all_rows : GoString → GoString → Session → List TrafficRecord
all_rows iface mac s =
    map (λ t. traffic_record (codes "all") t.key t.counters)
      (keep (λ t. mac_selected mac t.key.mac) (select_totals iface s.committed))

-- the map of a range of dates
abbrev pub range_map : GoString → GoString → GoString → GoString → GoString → Session → Aggregated
range_map window start end iface mac s =
    aggregate mac window [] (select_daily start end iface s.committed)

keep_all : {A : Type 0} (xs : List A) → map (λ x. x) (keep (λ x. true) xs) ≡ xs
unfolding keep
keep_all [] = refl
keep_all (x ∷ xs) = ap (λ ys. x ∷ ys) (keep_all xs)

module _ (e : Engine) (iface mac : GoString) (limit offset : ℕ) (s : Session) where
  -- `window=all` reads the totals of the interface and of the address, and returns the rows from
  -- `offset` on, at most `limit` of them; nothing is written.
  pub query_all-Reads :
      Reads e
        (query_all e iface mac limit offset)
        (take limit (drop offset (all_rows iface mac s)))
        s
  unfolding query_all
  query_all-Reads =
      subst (λ rows. Reads e (query_all e iface mac limit offset) rows s)
        (page_lem (λ t. mac_selected mac t.key.mac)
          (λ t. traffic_record (codes "all") t.key t.counters) limit offset
          (select_totals iface s.committed))
        (computed-Reads e
          (page (λ t. mac_selected mac t.key.mac)
            (λ t. traffic_record (codes "all") t.key t.counters) limit offset)
          (list_totals e iface) (select_totals iface s.committed) s (list_totals-Reads e iface s))

  module _ (order : List TrafficRecord → List TrafficRecord) (start end window : GoString) where
    pub query_date_range-Reads :
        Reads e
          (query_date_range e order start end iface mac limit offset window)
          (take limit (drop offset (order (values (range_map window start end iface mac s)))))
          s
    unfolding query_date_range
    query_date_range-Reads =
        let entries = order (values (range_map window start end iface mac s)) in
        subst
          (λ rows.
            Reads e (query_date_range e order start end iface mac limit offset window) rows s)
          (page_lem (λ r. true) (λ r. r) limit offset entries
            ∙ ap (λ rows. take limit (drop offset rows)) (keep_all entries))
          (computed-Reads e
            (λ daily.
              page (λ r. true) (λ r. r) limit offset
                (order (values (aggregate mac window [] daily))))
            (list_daily e start end iface) (select_daily start end iface s.committed) s
            (list_daily-Reads e start end iface s))

    -- A query by dates answers at most `limit` records from `offset` on, in whatever order the map
    -- gives them; each shows one key and, modulo 2 ^ 64, the sums over the rows of that key in the
    -- range of dates; nothing is written.
    pub query_date_range_lem :
        ((records : List TrafficRecord) → Permᴰ (order records) records)
        → All (λ d. IsUint64 d.counters) (select_daily start end iface s.committed)
        → let page =
            take limit (drop offset (order (values (range_map window start end iface mac s)))) in
          Reads e (query_date_range e order start end iface mac limit offset window) page s
          × All (Summed mac window (select_daily start end iface s.committed)) page
    query_date_range_lem perm u = (
      query_date_range-Reads,
      page-Summed mac window order perm limit offset (select_daily start end iface s.committed) u,
    )
