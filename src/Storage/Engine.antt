-- ===== src/Storage/Engine.antt =====
-- database/sql over SQLite, as internal/storage uses it: a connection with at most one open
-- transaction. The engine is a parameter: which of the driver's calls fail, and the sum of two
-- INTEGER values, which SQLite computes exactly below 2 ^ 63.
use wlt_traffic.Base.{
  ℕ, suc, ◌+◌, ◌^◌, ◌<◌, ◌≡◌, Bool, ◌&&◌, Option, none, some, ltb, if◌then◌else◌,
}
use wlt_traffic.Error.{Result, ok, err, outcome, high_bit_set, tx_done}
use wlt_traffic.Exec.{Exec, lift, modify, ◌>>◌}
use wlt_traffic.Storage.Types.{RecordKey, DailyKey, TrafficCounters, CheckpointRow}
use wlt_traffic.Storage.Table.{Table}

pub record Engine : Type 0 where
  -- the error of the driver's n-th call, `none` for a call that succeeds
  pub fault : ℕ → Option ℕ
  -- the value of `a + b` on two INTEGER columns
  pub sum : ℕ → ℕ → ℕ

abbrev pub int64_limit : ℕ
int64_limit = 2 ^ 63

-- SQLite's documented arithmetic: exact while the result is a 64-bit signed integer
pub record IsExact (e : Engine) : Type 0 where
  pub sum_exact : (a b : ℕ) → a + b < int64_limit → e.sum a b ≡ a + b

-- no call of the driver fails, so no Scan meets a sum that has become a REAL
pub record IsReliable (e : Engine) : Type 0 where
  pub no_fault : (n : ℕ) → e.fault n ≡ none

-- the tables that `initSchema` creates
pub record Tables : Type 0 where
  pub totals : Table RecordKey TrafficCounters
  pub daily : Table DailyKey TrafficCounters
  pub checkpoints : Table RecordKey CheckpointRow

pub record Session : Type 0 where
  pub committed : Tables
  -- what the open transaction has written
  pub pending : Option Tables
  -- the number of calls of the driver so far
  pub calls : ℕ

abbrev pub Db : Type 0 → Type 0
Db A = Exec Session A

-- driver.DefaultParameterConverter: a uint64 argument below 2 ^ 63 becomes an int64
abbrev pub fits_int64 : TrafficCounters → Bool
fits_int64 c =
    ltb c.bytes int64_limit
    && ltb c.packets int64_limit
    && ltb c.ingress_bytes int64_limit
    && ltb c.ingress_packets int64_limit
    && ltb c.egress_bytes int64_limit
    && ltb c.egress_packets int64_limit

unfoldable pub bind_counters : TrafficCounters → Result (Unit {0})
bind_counters c = if fits_int64 c then ok tt else err high_bit_set

module _ (e : Engine) where
  -- a call of the driver
  unfoldable pub call : Db (Unit {0})
  call s = (outcome (e.fault s.calls), record s { calls = suc s.calls })

  -- `db.BeginTx(ctx, nil)`
  unfoldable pub begin_tx : Db (Unit {0})
  unfolding call
  begin_tx = do call; modify λ s. record s { pending = some s.committed }

  abbrev pub on_pending : (Tables → Tables) → Db (Unit {0})
  on_pending statement s = elim s.pending [
    | none ↦ (err tx_done, s)
    | some t ↦ (ok tt, record s { pending = some (statement t) })
  ]

  -- `tx.ExecContext(ctx, query, args...)`; the arguments are converted before the call
  unfoldable pub exec_tx : Result (Unit {0}) → (Tables → Tables) → Db (Unit {0})
  unfolding call
  exec_tx bound statement = do lift bound; call; on_pending statement

  abbrev pub commit_pending : Session → Session
  commit_pending s = elim s.pending [
    | none ↦ s
    | some t ↦ record s { committed = t; pending = none }
  ]

  -- `tx.Commit()`; SQLite writes the whole transaction or, on an error, nothing of it
  unfoldable pub commit : Db (Unit {0})
  unfolding call
  commit = do call; modify commit_pending

-- `tx.Rollback()`, which does nothing after a commit
abbrev pub rollback : Session → Session
rollback s = record s { pending = none }
