-- ===== src/Runtime/Flush/Account.antt =====
-- The abstract view of a flush: the list of the kernel's entries, accounted one after the other
-- on the tables, with no engine errors.
use wlt_traffic.Base.{List, [], ◌∷◌, if◌then◌else◌}
use wlt_traffic.Storage.Types.{GoString, RecordKey, TrafficCounters}
use wlt_traffic.Storage.Engine.{Engine, Tables}
use wlt_traffic.Storage.Repository.{put_checkpoint}
use wlt_traffic.Storage.Query.{checkpoint_in}
use wlt_traffic.Ebpf.TrafficMap.{TrafficKey, TrafficCounter}
use wlt_traffic.Runtime.Flush.{flush_delta, is_idle, record_key, raw_counters}
use wlt_traffic.Runtime.Flush.Persist.{recorded}

abbrev pub Entry : Type 0
Entry = TrafficKey × TrafficCounter

abbrev pub entry_key : Entry → RecordKey
entry_key entry = record_key entry.0

abbrev pub entry_raw : Entry → TrafficCounters
entry_raw entry = raw_counters entry.1

module _ (e : Engine) (today : GoString) where
  abbrev pub delta_in : Tables → Entry → TrafficCounters
  delta_in t entry = flush_delta today (checkpoint_in t (entry_key entry)) (entry_raw entry)

  unfoldable pub account : Entry → Tables → Tables
  account entry t =
      let delta = delta_in t entry in
      if is_idle delta
      then put_checkpoint (entry_key entry) today (entry_raw entry) t
      else recorded e (entry_key entry) today delta (entry_raw entry) t

  unfoldable pub account_all : List Entry → Tables → Tables
  account_all [] t = t
  account_all (entry ∷ es) t = account_all es (account entry t)
