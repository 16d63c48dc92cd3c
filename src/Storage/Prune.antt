-- ===== src/Storage/Prune.antt =====
-- `PruneDaily` of internal/storage/storage.go.
use wlt_traffic.Base.{ℕ, Bool}
use wlt_traffic.Error.{pruning_daily_records, getting_rows_affected}
use wlt_traffic.Exec.{wrap, pure, modify, ◌>>◌}
use wlt_traffic.Storage.Types.{GoString, DailyKey}
use wlt_traffic.Storage.Text.{text_ltb}
use wlt_traffic.Storage.Table.{delete_where, count_where}
use wlt_traffic.Storage.Engine.{Engine, Tables, Session, Db, call}

abbrev pub is_older : GoString → DailyKey → Bool
is_older cutoff k = text_ltb k.date_utc cutoff

-- `DELETE FROM mac_traffic_daily WHERE date_utc < ?`
unfoldable pub delete_older : GoString → Tables → Tables
delete_older cutoff t = record t { daily = delete_where (is_older cutoff) t.daily }

-- the number of rows that the statement deletes
unfoldable pub rows_older : GoString → Tables → ℕ
rows_older cutoff t = count_where (is_older cutoff) t.daily

-- outside a transaction a statement is committed at once
abbrev commit_statement : (Tables → Tables) → Session → Session
commit_statement statement s = record s { committed = statement s.committed }

module _ (e : Engine) where
  unfoldable pub prune_daily : GoString → Db ℕ
  unfolding call
  prune_daily cutoff s =
      (do
        wrap pruning_daily_records (call e)
        modify (commit_statement (delete_older cutoff))
        wrap getting_rows_affected (call e)
        pure (rows_older cutoff s.committed))
        s
