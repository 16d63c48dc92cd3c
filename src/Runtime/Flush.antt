-- ===== src/Runtime/Flush.antt =====
-- internal/runtime/flush.go: the flush loop moves the kernel's counters into the database.
pub mod Persist
pub mod Delta
pub mod Account
pub mod Rows
pub mod Synced
pub mod Repeat
pub mod Order
pub mod View
pub mod Counts
pub mod Complete
pub mod Correct
pub mod Days
pub mod Invariant
pub mod Refine
pub mod Lifecycle
use wlt_traffic.Base.{
  ℕ, zero, suc, ◌+◌, ◌-◌, ◌*◌, ◌%◌, ◌^◌, Bool, true, false, ◌&&◌, Option, none, some, List, [], ite,
  ◌==◌, ◌||◌, leb, ltb, if◌then◌else◌,
}
use wlt_traffic.Error.{
  Error, Result, ok, err, out_of_fuel, beginning_transaction, upserting_checkpoint, upserting_total,
  upserting_daily, committing_transaction, getting_checkpoint, updating_checkpoint, persisting,
}
use wlt_traffic.Exec.{Exec, pure, raise, modify, wrap, deferred, ◌>>=◌, ◌>>◌}
use wlt_traffic.Calendar.{current_date_utc, second}
use wlt_traffic.Go.Strconv.{ℤ}
use wlt_traffic.Go.Duration.{in_seconds}
use wlt_traffic.Storage.Types.{
  GoString, RecordKey, TrafficCounters, Checkpoint, GoString-discrete, zip_counters,
}
use wlt_traffic.Storage.Engine.{
  Engine, Session, Db, bind_counters, begin_tx, exec_tx, commit, rollback,
}
use wlt_traffic.Storage.Repository.{add_daily, add_total, put_checkpoint, upsert_checkpoint}
use wlt_traffic.Storage.Query.{get_checkpoint}
use wlt_traffic.Ebpf.TrafficMap.{
  TrafficKey, TrafficCounter, BpfMap, TrafficMap, MapIterator, iterate, next,
}

-- `a - b` on uint64
unfoldable pub sub64 : ℕ → ℕ → ℕ
sub64 a b = (a + 2 ^ 64 - b) % 2 ^ 64

-- the interface name is not in the kernel's key
abbrev pub record_key : TrafficKey → RecordKey
record_key key = record { interface_name = []; ifindex = key.ifindex; mac = key.mac }

abbrev pub raw_counters : TrafficCounter → TrafficCounters
raw_counters c = record {
  bytes = c.bytes;
  packets = c.packets;
  ingress_bytes = c.ingress_bytes;
  ingress_packets = c.ingress_packets;
  egress_bytes = c.egress_bytes;
  egress_packets = c.egress_packets;
}

-- the counters since the checkpoint of the same day, and all of them otherwise
unfoldable pub flush_delta : GoString → Option Checkpoint → TrafficCounters → TrafficCounters
flush_delta today none raw = raw
flush_delta today (some cp) raw =
    ite (GoString-discrete cp.date_utc today) (zip_counters sub64 raw cp.last) raw

abbrev pub is_idle : TrafficCounters → Bool
is_idle d =
    d.bytes == 0
    && d.packets == 0
    && d.ingress_bytes == 0
    && d.ingress_packets == 0
    && d.egress_bytes == 0
    && d.egress_packets == 0

module _ (e : Engine) where
  -- `persistAll`: the three writes in one transaction
  unfoldable pub persist_all :
      RecordKey → GoString → TrafficCounters → TrafficCounters → Db (Unit {0})
  unfolding begin_tx exec_tx commit
  persist_all key date delta raw = do
    wrap beginning_transaction (begin_tx e)
    deferred rollback do
      wrap upserting_checkpoint (exec_tx e (bind_counters raw) (put_checkpoint key date raw))
      wrap upserting_total (exec_tx e (bind_counters delta) (add_total e key delta))
      wrap upserting_daily (exec_tx e (bind_counters delta) (add_daily e key date delta))
      wrap committing_transaction (commit e)

  -- the body of the loop of `Flush`
  unfoldable pub flush_entry : GoString → TrafficKey → TrafficCounter → Db (Unit {0})
  flush_entry today key counter = do
    cp ← wrap getting_checkpoint (get_checkpoint e (record_key key))
    let raw = raw_counters counter
    let delta = flush_delta today cp raw
    if is_idle delta
        then wrap updating_checkpoint (upsert_checkpoint e (record_key key) today raw)
        else wrap persisting (persist_all (record_key key) today delta raw)

  -- the loop of `Flush`: one round for each key of the map, on fuel
  unfoldable pub flush_map : ℕ → GoString → BpfMap → MapIterator → Db (Unit {0})
  flush_map zero today m mi = raise out_of_fuel
  flush_map (suc fuel) today m mi =
      let (mi', got) = next m mi in
      elim got [
        | none ↦ pure tt
        | some (key, counter) ↦ do flush_entry today key counter; flush_map fuel today m mi'
      ]

pub record FlushLoop : Type 0 where
  pub repo : Session
  pub traffic_map : Option TrafficMap
  -- cfg.Interval, in nanoseconds
  pub interval : ℕ
  -- the zero time is `none`; otherwise nanoseconds since 1970-01-01
  pub last_flush : Option ℕ
  pub flush_err : Option Error
  pub stopped : Bool

unfoldable pub new_flush_loop : Session → Option TrafficMap → ℤ → FlushLoop
new_flush_loop repo traffic_map interval_sec = record {
  repo = repo;
  traffic_map = traffic_map;
  interval = in_seconds interval_sec;
  last_flush = none;
  flush_err = none;
  stopped = false;
}

abbrev pub on_repo {ℓ} :
    {A : Type ℓ} → (Session → Result A × Session) → FlushLoop → Result A × FlushLoop
on_repo m f = let (r, s) = m f.repo in (r, record f { repo = s })

abbrev pub kernel_map : Option TrafficMap → Option BpfMap
kernel_map none = none
kernel_map (some t) = t.m

-- the end of `Flush`, after a loop with no error
unfoldable pub flush_end : ℕ → Result (Unit {0}) × FlushLoop → Result (Unit {0}) × FlushLoop
flush_end finished (ok _, f) = (ok tt, record f { last_flush = some finished; flush_err = none })
flush_end finished (err x, f) = (err x, f)

module _ (e : Engine) where
  -- `Flush(ctx)`, begun at the time `started` and ended at `finished`
  unfoldable pub flush : ℕ → ℕ → ℕ → Exec FlushLoop (Unit {0})
  flush fuel started finished f = elim (kernel_map f.traffic_map) [
    | none ↦ (ok tt, f)
    | some m ↦
        flush_end finished (on_repo (flush_map e fuel (current_date_utc started) m iterate) f)
  ]

  -- a tick of `runLoop`: a failed flush is kept for the status, and the loop goes on
  unfoldable pub flush_tick : ℕ → ℕ → ℕ → FlushLoop → FlushLoop
  flush_tick fuel started finished f =
      let (r, g) = flush fuel started finished f in
      elim r [ ok _ ↦ g | err x ↦ record g { flush_err = some x } ]

-- `LastFlush()`
unfoldable pub get_last_flush : FlushLoop → Option ℕ
get_last_flush f = f.last_flush

-- `FlushError()`
unfoldable pub get_flush_error : FlushLoop → Option Error
get_flush_error f = f.flush_err

-- `f.cfg.Interval*2`, an int64, as its 64 bits
unfoldable pub twice : ℕ → ℕ
twice interval = (interval * 2) % 2 ^ 64

-- `IsStale()` at the time `now`, not before the last flush: a double that has wrapped to a negative
-- number is less than any age
unfoldable pub is_stale : ℕ → FlushLoop → Bool
unfolding twice
is_stale now f = elim f.last_flush [
  | none ↦ true
  | some t ↦ leb (2 ^ 63) (twice f.interval) || ltb (twice f.interval) (now - t)
]
