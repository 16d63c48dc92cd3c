-- ===== src/Runtime/Interleave/Write.antt =====
-- The write of an entry in a flush, once its checkpoint is read.
use wlt_traffic.Base.{◌≡◌, true, Option, arith}
use wlt_traffic.Error.{ok, on_ok}
use wlt_traffic.Storage.Types.{GoString, Checkpoint}
use wlt_traffic.Storage.Engine.{Engine, Session, IsExact, fits_int64}
use wlt_traffic.Storage.Query.{checkpoint_in}
use wlt_traffic.Storage.Repository.Atomic.{upsert_checkpoint_atomic, upsert_checkpoint_fits}
use wlt_traffic.Ebpf.TrafficMap.{TrafficKey, TrafficCounter}
use wlt_traffic.Runtime.Flush.{record_key, raw_counters}
use wlt_traffic.Runtime.Flush.Persist.{persist_all_atomic, persist_all_fits}
use wlt_traffic.Runtime.Flush.Account.{Entry, entry_key, entry_raw, account, delta_in}
use wlt_traffic.Runtime.Flush.Synced.{IsSynced}
use wlt_traffic.Runtime.Flush.Invariant.{written-IsSynced}
use wlt_traffic.Runtime.Interleave.{flush_write}

-- a write whose checkpoint is the one of the tables
module _ (e : Engine) (today : GoString) (key : TrafficKey) (counter : TrafficCounter)
    (s : Session) where
  abbrev entry : Entry
  entry = (key, counter)

  abbrev cp : Option Checkpoint
  cp = checkpoint_in s.committed (record_key key)

  pub flush_write_atomic :
      let (r, s') = flush_write e today key counter cp s in
      s'.committed ≡ on_ok r (account e today entry s.committed) s.committed
  unfolding flush_write account
  flush_write_atomic =
      let k = record_key key in
      let raw = raw_counters counter in
      let delta = delta_in e today s.committed entry in
      ground
        (arith, persist_all_atomic e k today delta raw s, upsert_checkpoint_atomic e k today raw s)

  pub flush_write_fits :
      (flush_write e today key counter cp s).0 ≡ ok tt
      → (fits_int64 (entry_raw entry) ≡ true)
        × (fits_int64 (delta_in e today s.committed entry) ≡ true)
  unfolding flush_write
  flush_write_fits h =
      let delta = delta_in e today s.committed entry in
      ground (
        arith,
        persist_all_fits e (entry_key entry) today delta (entry_raw entry) s,
        upsert_checkpoint_fits e (entry_key entry) today (entry_raw entry) s,
      )

  pub flush_write-IsSynced :
      IsExact e
      → IsSynced today s.committed
      → IsSynced today (flush_write e today key counter cp s).1.committed
  flush_write-IsSynced x h =
      written-IsSynced e today entry s x h (flush_write e today key counter cp s) flush_write_atomic
        flush_write_fits
