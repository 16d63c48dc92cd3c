-- ===== src/Runtime/Flush/Persist.antt =====
-- What `persistAll` leaves in the database.
use wlt_traffic.Base.{suc, ◌≡◌, true, none, arith}
use wlt_traffic.Error.{ok, on_ok}
use wlt_traffic.Storage.Types.{GoString, RecordKey, TrafficCounters}
use wlt_traffic.Storage.Engine.{Engine, Session, Tables, IsReliable, bind_counters, fits_int64}
use wlt_traffic.Storage.Repository.{add_daily, add_total, put_checkpoint}
use wlt_traffic.Runtime.Flush.{persist_all}

-- the three writes of a flushed key
abbrev pub recorded :
    Engine → RecordKey → GoString → TrafficCounters → TrafficCounters → Tables → Tables
recorded e key date delta raw t =
    add_daily e key date delta (add_total e key delta (put_checkpoint key date raw t))

module _ (e : Engine) (key : RecordKey) (date : GoString) (delta raw : TrafficCounters)
    (s : Session) where
  pub persist_all_atomic :
      let (r, s') = persist_all e key date delta raw s in
      (s'.committed ≡ on_ok r (recorded e key date delta raw s.committed) s.committed)
      × (s.pending ≡ none → s'.pending ≡ none)
  unfolding persist_all
  persist_all_atomic = ground arith

  -- The three writes of a flushed key are one transaction: after a success the database holds all
  -- of them, after an error none, and no transaction is left open.
  pub persist_all_lem :
      s.pending ≡ none
      → let (r, s') = persist_all e key date delta raw s in
        (s'.committed ≡ on_ok r (recorded e key date delta raw s.committed) s.committed)
        × (s'.pending ≡ none)
  persist_all_lem shut = (persist_all_atomic.0, persist_all_atomic.1 shut)

  -- a success says that every counter was an int64
  pub persist_all_fits :
      (persist_all e key date delta raw s).0 ≡ ok tt
      → (fits_int64 raw ≡ true) × (fits_int64 delta ≡ true)
  unfolding persist_all bind_counters
  persist_all_fits h = ground arith

  -- and without faults every such write succeeds
  pub persist_all_ok :
      IsReliable e
      → fits_int64 raw ≡ true
      → fits_int64 delta ≡ true
      → (persist_all e key date delta raw s).0 ≡ ok tt
  unfolding persist_all bind_counters
  persist_all_ok r p q = ground (
    arith,
    r.no_fault (s.calls),
    r.no_fault (suc (s.calls)),
    r.no_fault (suc (suc (s.calls))),
    r.no_fault (suc (suc (suc (s.calls)))),
    r.no_fault (suc (suc (suc (suc (s.calls))))),
  )
