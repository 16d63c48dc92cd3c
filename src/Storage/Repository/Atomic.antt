-- ===== src/Storage/Repository/Atomic.antt =====
-- The write methods are transactions: all of the statement, or nothing.
use wlt_traffic.Base.{suc, ◌≡◌, true, none, arith}
use wlt_traffic.Error.{ok, on_ok}
use wlt_traffic.Storage.Types.{GoString, RecordKey, TrafficCounters}
use wlt_traffic.Storage.Engine.{Engine, Session, IsReliable, bind_counters, fits_int64}
use wlt_traffic.Storage.Repository.{
  add_daily, add_total, put_checkpoint, upsert_daily, upsert_total, upsert_checkpoint,
}

module _ (e : Engine) (key : RecordKey) (date : GoString) (c : TrafficCounters) (s : Session) where
  pub upsert_checkpoint_atomic :
      let (r, s') = upsert_checkpoint e key date c s in
      (s'.committed ≡ on_ok r (put_checkpoint key date c s.committed) s.committed)
      × (s.pending ≡ none → s'.pending ≡ none)
  unfolding upsert_checkpoint
  upsert_checkpoint_atomic = ground arith

  pub upsert_checkpoint_fits : (upsert_checkpoint e key date c s).0 ≡ ok tt → fits_int64 c ≡ true
  unfolding upsert_checkpoint bind_counters
  upsert_checkpoint_fits h = ground arith

  pub upsert_checkpoint_ok :
      IsReliable e → fits_int64 c ≡ true → (upsert_checkpoint e key date c s).0 ≡ ok tt
  unfolding upsert_checkpoint bind_counters
  upsert_checkpoint_ok r p =
      ground
        (arith, r.no_fault (s.calls), r.no_fault (suc (s.calls)), r.no_fault (suc (suc (s.calls))))

  -- `UpsertDaily` is a transaction: it adds to the row of the key and date or, on an error,
  -- changes nothing, and leaves no transaction open.
  pub upsert_daily_lem :
      s.pending ≡ none
      → let (r, s') = upsert_daily e key date c s in
        (s'.committed ≡ on_ok r (add_daily e key date c s.committed) s.committed)
        × (s'.pending ≡ none)
  unfolding upsert_daily
  upsert_daily_lem shut = ground arith

  -- `UpsertTotal` is a transaction: it adds to the row of the key or, on an error, changes nothing,
  -- and leaves no transaction open.
  pub upsert_total_lem :
      s.pending ≡ none
      → let (r, s') = upsert_total e key c s in
        (s'.committed ≡ on_ok r (add_total e key c s.committed) s.committed) × (s'.pending ≡ none)
  unfolding upsert_total
  upsert_total_lem shut = ground arith
