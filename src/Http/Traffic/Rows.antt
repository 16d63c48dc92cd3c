-- ===== src/Http/Traffic/Rows.antt =====
-- Which records a query by dates returns.
use mathlib.Core.List.{Permᴰ}
use mathlib.Core.Option
use wlt_traffic.Base.{
  ℕ, ◌≡◌, refl, sym, ap, ◌∙◌, zero, suc, some, List, [], ◌∷◌, All, All-zip, take, drop, arith, ◌≢◌,
  Bool-cases, inl, inr,
}
use wlt_traffic.Base.Sort.{All-perm}
use wlt_traffic.Storage.Types.{GoString, RecordKey, DailyRecord, RecordKey-discrete}
use wlt_traffic.Storage.Table.{Table, find, upsert, IsFresh, IsKeyed}
use wlt_traffic.Http.Mac.{mac_to_string, mac_selected}
use wlt_traffic.Http.Traffic.{
  TrafficRecord, traffic_record, Aggregated, add_counters, add_daily_record, aggregate, values,
}
use wlt_traffic.Http.Traffic.Sum.{
  IsUint64, counters_in, wrapped, sum_rows, aggregate-sum_rows, aggregate-IsKeyed,
}

module _ {A : Type 0} (P : A → Type 0) where
  All-drop : (n : ℕ) (xs : List A) → All P xs → All P (drop n xs)
  All-drop zero xs h = h
  All-drop (suc n) [] h = h
  All-drop (suc n) (x ∷ xs) h = All-drop n xs h.1

  All-take : (n : ℕ) (xs : List A) → All P xs → All P (take n xs)
  All-take zero xs h = tt
  All-take (suc n) [] h = h
  All-take (suc n) (x ∷ xs) h = (h.0, All-take n xs h.1)

module _ {K V : Type 0} (dec : Discrete K) where
  All-IsFresh : (k : K) (t : Table K V) → IsFresh dec k t → All (λ entry. entry.0 ≢ k) t
  All-IsFresh k [] h = tt
  All-IsFresh k ((j, w) ∷ t) h = (h.0, All-IsFresh k t h.1)

  find_head : (j : K) (w : V) (t : Table K V) → find dec j ((j, w) ∷ t) ≡ some w
  unfolding find
  find_head j w t = ground arith

  find_tail : (j k : K) (w : V) (t : Table K V) → k ≢ j → find dec k ((j, w) ∷ t) ≡ find dec k t
  unfolding find
  find_tail j k w t n = ground arith

  -- every row of a keyed table is the row of its key
  All-find : (t : Table K V) → IsKeyed dec t → All (λ entry. find dec entry.0 t ≡ some entry.1) t
  All-find [] h = tt
  All-find ((j, w) ∷ t) h = (
    find_head j w t,
    All-zip (λ entry. entry.0 ≢ j) (λ entry. find dec entry.0 t ≡ some entry.1)
        (λ entry. find dec entry.0 ((j, w) ∷ t) ≡ some entry.1)
        (λ entry n e. find_tail j entry.0 w t n ∙ e) t (All-IsFresh j t h.0) (All-find t h.1),
  )

  All-upsert :
      (P : K × V → Type 0) (merge : V → V → V) (k : K) (v : V)
      → P (k, v)
      → ((j : K) (w : V) → P (j, w) → P (j, merge w v))
      → (t : Table K V) → All P t
      → All P (upsert dec merge k v t)
  unfolding upsert
  All-upsert P merge k v p f [] h = (p, tt)
  All-upsert P merge k v p f ((j, w) ∷ t) h = elim (dec j k) [
    | yes e ↦ ground (arith, f j w h.0)
    | no e ↦ ground (arith, All-upsert P merge k v p f t h.1)
  ]

-- the record shows the key
pub record Shows (key : RecordKey) (window : GoString) (r : TrafficRecord) : Type 0 where
  pub interface_shown : r.interface ≡ key.interface_name
  pub ifindex_shown : r.ifindex ≡ key.ifindex
  pub mac_shown : r.mac ≡ mac_to_string key.mac
  pub window_shown : r.window ≡ window

-- The record is the answer for one key: it shows the key, and its counters are the sums of the
-- key's rows modulo 2 ^ 64.
pub record Summed (mac window : GoString) (daily : List DailyRecord) (r : TrafficRecord)
    : Type 0 where
  pub key : RecordKey
  pub shown : Shows key window r
  pub sums : some (counters_in r) ≡ Option.map wrapped (sum_rows mac key daily)

All-values :
    (P : TrafficRecord → Type 0) (agg : Aggregated)
    → All (λ entry. P entry.1) agg
    → All P (values agg)
All-values P [] h = tt
All-values P (entry ∷ agg) h = (h.0, All-values P agg h.1)

module _ (mac window : GoString) where
  add_daily_record-Shows :
      (d : DailyRecord) (agg : Aggregated)
      → All (λ entry. Shows entry.0 window entry.1) agg
      → All (λ entry. Shows entry.0 window entry.1) (add_daily_record window d agg)
  unfolding add_daily_record traffic_record add_counters
  add_daily_record-Shows d agg h =
      All-upsert RecordKey-discrete (λ entry. Shows entry.0 window entry.1)
        (λ rec _. add_counters d.counters rec) d.key (traffic_record window d.key d.counters)
        (record {
          interface_shown = refl;
          ifindex_shown = refl;
          mac_shown = refl;
          window_shown = refl;
        })
        (λ j w p. record {
          interface_shown = p.interface_shown;
          ifindex_shown = p.ifindex_shown;
          mac_shown = p.mac_shown;
          window_shown = p.window_shown;
        })
        agg h

  aggregate-Shows :
      (agg : Aggregated) (daily : List DailyRecord)
      → All (λ entry. Shows entry.0 window entry.1) agg
      → All (λ entry. Shows entry.0 window entry.1) (aggregate mac window agg daily)
  unfolding aggregate
  aggregate-Shows agg [] h = h
  aggregate-Shows agg (d ∷ daily) h = elim (Bool-cases (mac_selected mac d.key.mac)) [
    | inr e ↦ rw e (aggregate-Shows agg daily h)
    | inl e ↦
        rw e
          (aggregate-Shows (add_daily_record window d agg) daily (add_daily_record-Shows d agg h))
  ]

  aggregate-Summed :
      (daily : List DailyRecord)
      → All (λ d. IsUint64 d.counters) daily
      → All (Summed mac window daily) (values (aggregate mac window [] daily))
  aggregate-Summed daily u =
      let agg = aggregate mac window [] daily in
      let found = All-find RecordKey-discrete agg (aggregate-IsKeyed mac window [] daily tt) in
      All-values (Summed mac window daily) agg (
        All-zip (λ entry. Shows entry.0 window entry.1)
          (λ entry. find RecordKey-discrete entry.0 agg ≡ some entry.1)
          (λ entry. Summed mac window daily entry.1)
          (λ entry s f. record {
            key = entry.0;
            shown = s;
            sums =
                sym (ap (Option.map counters_in) f) ∙ aggregate-sum_rows mac window entry.0 daily u;
          })
          agg (aggregate-Shows [] daily tt) found)

  -- Whatever order the entries come in, every record on a page shows one key, and its counters are
  -- the sums over that key's rows.
  pub page-Summed :
      (order : List TrafficRecord → List TrafficRecord)
      → ((records : List TrafficRecord) → Permᴰ (order records) records)
      → (limit offset : ℕ) (daily : List DailyRecord) → All (λ d. IsUint64 d.counters) daily
      → All
          (Summed mac window daily)
          (take limit (drop offset (order (values (aggregate mac window [] daily)))))
  page-Summed order perm limit offset daily u =
      let records = values (aggregate mac window [] daily) in
      All-take (Summed mac window daily) limit (drop offset (order records)) (
        All-drop (Summed mac window daily) offset (order records) (
          All-perm (Summed mac window daily) (order records) records (perm records)
            (aggregate-Summed daily u)))
