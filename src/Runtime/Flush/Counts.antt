-- ===== src/Runtime/Flush/Counts.antt =====
-- What flushing one entry adds to the counts of its key, and when it is refused.
use wlt_traffic.Base.{◌+◌, ◌≡◌, ◌≢◌, refl, ap, subst, ◌∙◌, Option, none, some, arith}
use wlt_traffic.Error.{Result, ok, err, on_ok}
use wlt_traffic.Storage.Types.{GoString, TrafficCounters, CheckpointRow, zip_counters}
use wlt_traffic.Storage.Engine.{Engine, Session, Tables, IsExact}
use wlt_traffic.Runtime.Flush.{flush_entry}
use wlt_traffic.Runtime.Flush.Delta.{Fits, NotAbove, Fits-NotAbove, fits_int64-Fits}
use wlt_traffic.Runtime.Flush.Account.{Entry, entry_key, entry_raw, account, delta_in}
use wlt_traffic.Runtime.Flush.Rows.{
  checkpoint_row, total_row, daily_row, grown, delta_in-today, delta_in-new_day,
  checkpoint-account_self, total-account_self, daily-account_self,
}
use wlt_traffic.Runtime.Flush.Refine.{flush_entry_atomic}
use wlt_traffic.Runtime.Flush.Synced.{counters_of}
use wlt_traffic.Runtime.Flush.Invariant.{flush_entry_fits}

abbrev pub plus : TrafficCounters → TrafficCounters → TrafficCounters
plus = zip_counters ◌+◌

-- Below the limit of int64 a row grows by the delta.
grown_exact :
    (e : Engine)
    → IsExact e
    → (delta : TrafficCounters) (o : Option TrafficCounters) → Fits (plus (counters_of o) delta)
    → counters_of (grown e delta o) ≡ plus (counters_of o) delta
grown_exact e x delta none h = ground arith
grown_exact e x delta (some w) h = ground (
  arith,
  x.sum_exact w.bytes delta.bytes,
  x.sum_exact w.packets delta.packets,
  x.sum_exact w.ingress_bytes delta.ingress_bytes,
  x.sum_exact w.ingress_packets delta.ingress_packets,
  x.sum_exact w.egress_bytes delta.egress_bytes,
  x.sum_exact w.egress_packets delta.egress_packets,
)

-- what an error leaves
kept : (a b c : Tables) (r : Result (Unit {0})) → c ≡ on_ok r a b → r ≢ ok tt → c ≡ b
kept a b c (ok _) p n = absurd (n refl)
kept a b c (err y) p n = p

module _ (e : Engine) (today : GoString) (entry : Entry) (s : Session) where
  abbrev pub flush_one : Result (Unit {0}) × Session
  flush_one = flush_entry e today entry.0 entry.1 s

  committed-flush_one :
      flush_one.0 ≡ ok tt → flush_one.1.committed ≡ account e today entry s.committed
  committed-flush_one good = ground (arith, (flush_entry_atomic e today entry.0 entry.1 s).0)

  -- Without an error the total and the bucket of today of the key both grow by the delta, below
  -- the limit of int64, and its checkpoint is of today with the raw counters.
  pub flush_entry_counts :
      (delta : TrafficCounters)
      → IsExact e
      → delta_in e today s.committed entry ≡ delta
      → Fits (plus (counters_of (total_row s.committed (entry_key entry))) delta)
      → Fits (plus (counters_of (daily_row s.committed (entry_key entry) today)) delta)
      → flush_one.0 ≡ ok tt
      → let t = s.committed in
        let t' = flush_one.1.committed in
        let k = entry_key entry in
        (counters_of (total_row t' k) ≡ plus (counters_of (total_row t k)) delta)
        × (counters_of (daily_row t' k today) ≡ plus (counters_of (daily_row t k today)) delta)
        × (checkpoint_row t' k ≡ some (record { date_utc = today; last = entry_raw entry }))
  flush_entry_counts delta x d p q good =
      let t = s.committed in
      let k = entry_key entry in
      rw (committed-flush_one good) (
        ap counters_of (total-account_self e today entry t)
            ∙ rw d (grown_exact e x delta (total_row t k) p),
        ap counters_of (daily-account_self e today entry t)
            ∙ rw d (grown_exact e x delta (daily_row t k today) q),
        checkpoint-account_self e today entry t,
      )

  module _ (row : CheckpointRow)
      (found : checkpoint_row s.committed (entry_key entry) ≡ some row) where
    -- On another day than that of its checkpoint, an entry adds all that the kernel has counted,
    -- and not what it has counted since the checkpoint.
    pub flush_entry_rollover :
        IsExact e
        → row.date_utc ≢ today
        → Fits (plus (counters_of (total_row s.committed (entry_key entry))) (entry_raw entry))
        → Fits
            (plus (counters_of (daily_row s.committed (entry_key entry) today)) (entry_raw entry))
        → flush_one.0 ≡ ok tt
        → let t = s.committed in
          let t' = flush_one.1.committed in
          let k = entry_key entry in
          (counters_of (total_row t' k) ≡ plus (counters_of (total_row t k)) (entry_raw entry))
          × (counters_of (daily_row t' k today)
              ≡ plus (counters_of (daily_row t k today)) (entry_raw entry))
    flush_entry_rollover x new p q good =
        let d = delta_in-new_day e today s.committed entry row found new in
        let (a, b, c) = flush_entry_counts (entry_raw entry) x d p q good in (a, b)

    -- On the day of its checkpoint an entry of which some counter went back is refused, and
    -- nothing is written.
    pub flush_entry_regressed :
        row.date_utc ≡ today
        → Fits row.last
        → ¬ NotAbove row.last (entry_raw entry)
        → (flush_one.0 ≢ ok tt) × (flush_one.1.committed ≡ s.committed)
    flush_entry_regressed same p back =
        let refused : flush_one.0 ≢ ok tt = λ good.
          let (fit, delta_fit) = flush_entry_fits e today entry.0 entry.1 s good in
          let d = delta_in-today e today s.committed entry row found same in
          back (
            Fits-NotAbove (entry_raw entry) row.last (fits_int64-Fits _ fit) p
              (subst Fits d (fits_int64-Fits _ delta_fit))) in
        (refused, kept _ _ _ flush_one.0 (flush_entry_atomic e today entry.0 entry.1 s).0 refused)
