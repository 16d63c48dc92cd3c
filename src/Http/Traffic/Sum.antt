-- ===== src/Http/Traffic/Sum.antt =====
-- What the aggregation of `queryDateRange` adds up.
use mathlib.Core.Option
use wlt_traffic.Base.{
  ℕ, ◌+◌, ◌%◌, ◌^◌, ◌≡◌, ◌≢◌, ◌∙◌, refl, sym, subst, ap, Bool, true, false, inl, inr, ◌&&◌, Option,
  none, some, List, [], ◌∷◌, All, arith, ite, if◌then◌else◌, Bool-cases,
}
use wlt_traffic.Storage.Types.{
  GoString, RecordKey, TrafficCounters, DailyRecord, RecordKey-discrete, zip_counters,
}
use wlt_traffic.Storage.Table.{
  find, merged, find-upsert_self, find-upsert_ne, IsKeyed, upsert-IsKeyed,
}
use wlt_traffic.Http.Mac.{mac_selected}
use wlt_traffic.Http.Traffic.{
  TrafficRecord, traffic_record, add64, add_counters, Aggregated, add_daily_record, aggregate,
}

-- the counters of a record of the answer
unfoldable pub counters_in : TrafficRecord → TrafficCounters
counters_in r = record {
  bytes = r.total_bytes;
  packets = r.total_packets;
  ingress_bytes = r.ingress_bytes;
  ingress_packets = r.ingress_packets;
  egress_bytes = r.egress_bytes;
  egress_packets = r.egress_packets;
}

-- the exact sum of two counters
unfoldable pub sum : TrafficCounters → TrafficCounters → TrafficCounters
sum = zip_counters ◌+◌

-- every counter modulo 2 ^ 64
unfoldable pub wrapped : TrafficCounters → TrafficCounters
wrapped c = zip_counters (λ a b. a % 2 ^ 64) c c

unfoldable merge_sum : Option TrafficCounters → Option TrafficCounters → Option TrafficCounters
unfolding sum
merge_sum none b = b
merge_sum (some a) none = some a
merge_sum (some a) (some b) = some (sum a b)

-- the rows of a key, of an address that the parameter selects
unfoldable pub is_of : GoString → RecordKey → DailyRecord → Bool
is_of mac k d = mac_selected mac d.key.mac && ite (RecordKey-discrete d.key k) Bool.true Bool.false

-- the exact sum of these rows, `none` without such a row
unfoldable pub sum_rows : GoString → RecordKey → List DailyRecord → Option TrafficCounters
unfolding merge_sum
sum_rows mac k [] = none
sum_rows mac k (d ∷ daily) =
    let rest = sum_rows mac k daily in
    if is_of mac k d then merge_sum (some d.counters) rest else rest

merge_sum_assoc :
    (a b c : Option TrafficCounters) → merge_sum (merge_sum a b) c ≡ merge_sum a (merge_sum b c)
unfolding merge_sum sum
merge_sum_assoc none b c = refl
merge_sum_assoc (some a) none c = refl
merge_sum_assoc (some a) (some b) none = refl
merge_sum_assoc (some a) (some b) (some c) = ground arith

add64_wrapped : (a c r : ℕ) → r ≡ a % 2 ^ 64 → add64 r c ≡ (a + c) % 2 ^ 64
add64_wrapped a c r h = omega arith

counters_in-add_counters :
    (c a : TrafficCounters) (rec : TrafficRecord)
    → counters_in rec ≡ wrapped a
    → counters_in (add_counters c rec) ≡ wrapped (sum a c)
unfolding counters_in add_counters wrapped sum
counters_in-add_counters c a rec h = ground (
  arith,
  add64_wrapped a.bytes c.bytes rec.total_bytes (ap (λ (t : TrafficCounters). t.bytes) h),
  add64_wrapped a.packets c.packets rec.total_packets (ap (λ (t : TrafficCounters). t.packets) h),
  add64_wrapped a.ingress_bytes c.ingress_bytes rec.ingress_bytes
      (ap (λ (t : TrafficCounters). t.ingress_bytes) h),
  add64_wrapped a.ingress_packets c.ingress_packets rec.ingress_packets
      (ap (λ (t : TrafficCounters). t.ingress_packets) h),
  add64_wrapped a.egress_bytes c.egress_bytes rec.egress_bytes
      (ap (λ (t : TrafficCounters). t.egress_bytes) h),
  add64_wrapped a.egress_packets c.egress_packets rec.egress_packets
      (ap (λ (t : TrafficCounters). t.egress_packets) h),
)

-- the counters of a row are uint64
unfoldable pub IsUint64 : TrafficCounters → Type 0
unfolding wrapped
IsUint64 c = wrapped c ≡ c

-- what the map holds for the key, from the sum `o` on
Holds : RecordKey → Aggregated → Option TrafficCounters → Type 0
Holds k agg o = Option.map counters_in (find RecordKey-discrete k agg) ≡ Option.map wrapped o

some_inj {ℓ} : {A : Type ℓ} {a b : A} → some a ≡ some b → a ≡ b
some_inj h = ground arith

merged_sum :
    (window : GoString) (k : RecordKey) (c : TrafficCounters) (f : Option TrafficRecord)
    (o : Option TrafficCounters)
    → IsUint64 c
    → Option.map counters_in f ≡ Option.map wrapped o
    → Option.map counters_in
        (some (merged (λ rec _. add_counters c rec) (traffic_record window k c) f))
      ≡ Option.map wrapped (merge_sum o (some c))
unfolding merge_sum IsUint64 traffic_record counters_in
merged_sum window k c none none u h = ap some (sym u)
merged_sum window k c none (some a) u h = ground arith
merged_sum window k c (some rec) none u h = ground arith
merged_sum window k c (some rec) (some a) u h =
    ap some (counters_in-add_counters c a rec (some_inj h))

merge_sum-none : (o : Option TrafficCounters) → merge_sum o none ≡ o
unfolding merge_sum
merge_sum-none none = refl
merge_sum-none (some a) = refl

module _ (mac window : GoString) where
  add_daily_record-Holds :
      (d : DailyRecord) (agg : Aggregated) (o : Option TrafficCounters)
      → IsUint64 d.counters
      → Holds d.key agg o
      → Holds d.key (add_daily_record window d agg) (merge_sum o (some d.counters))
  unfolding Holds add_daily_record
  add_daily_record-Holds d agg o u h =
      ap (Option.map counters_in) (
        find-upsert_self RecordKey-discrete (λ rec _. add_counters d.counters rec) d.key
          (traffic_record window d.key d.counters) agg)
      ∙ merged_sum window d.key d.counters (find RecordKey-discrete d.key agg) o u h

  add_daily_record-Holds_ne :
      (d : DailyRecord) (k : RecordKey) (agg : Aggregated) (o : Option TrafficCounters)
      → d.key ≢ k
      → Holds k agg o
      → Holds k (add_daily_record window d agg) o
  unfolding Holds add_daily_record
  add_daily_record-Holds_ne d k agg o n h =
      ap (Option.map counters_in) (
        find-upsert_ne RecordKey-discrete (λ rec _. add_counters d.counters rec) d.key k
          (traffic_record window d.key d.counters) agg n)
      ∙ h

  is_of_skipped :
      (d : DailyRecord) (k : RecordKey) → mac_selected mac d.key.mac ≡ false → is_of mac k d ≡ false
  unfolding is_of
  is_of_skipped d k h = ground arith

  is_of_other : (d : DailyRecord) (k : RecordKey) → d.key ≢ k → is_of mac k d ≡ false
  unfolding is_of
  is_of_other d k h = ground arith

  is_of_key :
      (d : DailyRecord) (k : RecordKey)
      → mac_selected mac d.key.mac ≡ true
      → d.key ≡ k
      → is_of mac k d ≡ true
  unfolding is_of
  is_of_key d k h p = ground arith

  aggregate-Holds :
      (k : RecordKey) (agg : Aggregated) (o : Option TrafficCounters) (daily : List DailyRecord)
      → All (λ d. IsUint64 d.counters) daily
      → Holds k agg o
      → Holds k (aggregate mac window agg daily) (merge_sum o (sum_rows mac k daily))
  unfolding aggregate sum_rows
  aggregate-Holds k agg o [] u h = subst (Holds k agg) (sym (merge_sum-none o)) h
  aggregate-Holds k agg o (d ∷ daily) u h = elim (Bool-cases (mac_selected mac d.key.mac)) [
    | inr e ↦ rw (e, is_of_skipped d k e) (aggregate-Holds k agg o daily u.1 h)
    | inl e ↦ elim (RecordKey-discrete d.key k) [
      | yes p ↦
          rw
            (e, is_of_key d k e p, sym (merge_sum_assoc o (some d.counters) (sum_rows mac k daily)))
            (aggregate-Holds k (add_daily_record window d agg) (merge_sum o (some d.counters)) daily
              u.1
              (subst (λ j. Holds j (add_daily_record window d agg) (merge_sum o (some d.counters)))
                p (add_daily_record-Holds d agg o u.0 (subst (λ j. Holds j agg o) (sym p) h))))
      | no p ↦
          rw (e, is_of_other d k p)
            (aggregate-Holds k (add_daily_record window d agg) o daily u.1
              (add_daily_record-Holds_ne d k agg o p h))
    ]
  ]

  -- The aggregation holds one entry for each key with a selected row, and in it the sums of that
  -- key's rows modulo 2 ^ 64.
  pub aggregate-sum_rows :
      (k : RecordKey) (daily : List DailyRecord)
      → All (λ d. IsUint64 d.counters) daily
      → Option.map counters_in (find RecordKey-discrete k (aggregate mac window [] daily))
        ≡ Option.map wrapped (sum_rows mac k daily)
  unfolding Holds find merge_sum
  aggregate-sum_rows k daily u = aggregate-Holds k [] none daily u refl

  pub aggregate-IsKeyed :
      (agg : Aggregated) (daily : List DailyRecord)
      → IsKeyed RecordKey-discrete agg
      → IsKeyed RecordKey-discrete (aggregate mac window agg daily)
  unfolding aggregate add_daily_record
  aggregate-IsKeyed agg [] h = h
  aggregate-IsKeyed agg (d ∷ daily) h = elim (Bool-cases (mac_selected mac d.key.mac)) [
    | inr e ↦ rw e (aggregate-IsKeyed agg daily h)
    | inl e ↦ rw e (
        aggregate-IsKeyed (add_daily_record window d agg) daily (
          upsert-IsKeyed RecordKey-discrete (λ rec _. add_counters d.counters rec) d.key
            (traffic_record window d.key d.counters) agg h))
  ]
