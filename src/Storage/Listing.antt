-- ===== src/Storage/Listing.antt =====
-- `ListDaily`, `ListTotals` and `ListCheckpoints` of internal/storage/storage.go.
pub mod Laws
pub mod Daily
use wlt_traffic.Base.{Bool, true, ◌&&◌, ◌||◌, List, [], ◌∷◌, ltb, ◌==◌, ite, map, if◌then◌else◌}
use wlt_traffic.Base.Sort.{keep, sort_by}
use wlt_traffic.Error.{
  Stage, listing_daily_records, scanning_daily_record, iterating_daily_rows, listing_totals,
  scanning_total_record, iterating_total_rows, listing_checkpoints, scanning_checkpoint,
  iterating_checkpoint_rows,
}
use wlt_traffic.Exec.{Exec, wrap, pure, gets, ◌>>=◌, ◌>>◌}
use wlt_traffic.Storage.Types.{
  GoString, Mac, RecordKey, DailyKey, TrafficCounters, DailyRecord, TotalRecord, Checkpoint,
  CheckpointRow, GoString-discrete,
}
use wlt_traffic.Storage.Text.{text_leb, text_ltb}
use wlt_traffic.Storage.Engine.{Engine, Tables, Db, call}

-- the bytes of `mac[:]`, as the BLOB column holds them
abbrev pub mac_bytes : Mac → GoString
mac_bytes m = m.b0 ∷ m.b1 ∷ m.b2 ∷ m.b3 ∷ m.b4 ∷ m.b5 ∷ []

-- `ORDER BY interface_name, ifindex, mac`
unfoldable pub key_leb : RecordKey → RecordKey → Bool
key_leb a b =
    text_ltb a.interface_name b.interface_name
    || text_leb a.interface_name b.interface_name
      && (ltb a.ifindex b.ifindex
          || a.ifindex == b.ifindex && text_leb (mac_bytes a.mac) (mac_bytes b.mac))

-- `ORDER BY interface_name, ifindex, mac, date_utc`
unfoldable pub daily_key_leb : DailyKey → DailyKey → Bool
daily_key_leb a b =
    if key_leb b.key a.key
    then key_leb a.key b.key && text_leb a.date_utc b.date_utc
    else key_leb a.key b.key

-- `interfaceFilter != ""` adds the condition `interface_name = ?`
unfoldable pub on_interface : GoString → RecordKey → Bool
on_interface [] key = true
on_interface (c ∷ s) key = ite (GoString-discrete key.interface_name (c ∷ s)) Bool.true Bool.false

abbrev pub in_range : GoString → GoString → GoString → DailyKey → Bool
in_range start end filter k =
    on_interface filter k.key && (text_leb start k.date_utc && text_leb k.date_utc end)

-- the rows of the three queries, in order
unfoldable pub select_daily : GoString → GoString → GoString → Tables → List DailyRecord
select_daily start end filter t =
    map
      (λ (row : DailyKey × TrafficCounters). record {
        key = row.0.key;
        date_utc = row.0.date_utc;
        counters = row.1;
      })
      (sort_by (λ a b. daily_key_leb a.0 b.0)
        (keep (λ row. in_range start end filter row.0) t.daily))

unfoldable pub select_totals : GoString → Tables → List TotalRecord
select_totals filter t =
    map (λ (row : RecordKey × TrafficCounters). record { key = row.0; counters = row.1 })
      (sort_by (λ a b. key_leb a.0 b.0) (keep (λ row. on_interface filter row.0) t.totals))

unfoldable pub select_checkpoints : GoString → Tables → List Checkpoint
select_checkpoints filter t =
    map
      (λ (row : RecordKey × CheckpointRow). record {
        key = row.0;
        date_utc = row.1.date_utc;
        last = row.1.last;
      })
      (sort_by (λ a b. key_leb a.0 b.0) (keep (λ row. on_interface filter row.0) t.checkpoints))

module _ (e : Engine) where
  -- `for rows.Next() { rows.Scan(…); records = append(records, …) }`; a Scan may fail as any call does,
  -- one of a sum that has become a REAL too
  unfoldable pub scan_rows : {A : Type 0} → Stage → List A → Db (List A)
  scan_rows stage [] = pure []
  scan_rows stage (row ∷ rows) = do
    wrap stage (call e)
    rest ← scan_rows stage rows
    pure (row ∷ rest)

  unfoldable pub list_daily : GoString → GoString → GoString → Db (List DailyRecord)
  list_daily start end filter = do
    wrap listing_daily_records (call e)
    rows ← gets (λ s. select_daily start end filter s.committed)
    records ← scan_rows scanning_daily_record rows
    wrap iterating_daily_rows (call e)
    pure records

  unfoldable pub list_totals : GoString → Db (List TotalRecord)
  list_totals filter = do
    wrap listing_totals (call e)
    rows ← gets (λ s. select_totals filter s.committed)
    records ← scan_rows scanning_total_record rows
    wrap iterating_total_rows (call e)
    pure records

  unfoldable pub list_checkpoints : GoString → Db (List Checkpoint)
  list_checkpoints filter = do
    wrap listing_checkpoints (call e)
    rows ← gets (λ s. select_checkpoints filter s.committed)
    checkpoints ← scan_rows scanning_checkpoint rows
    wrap iterating_checkpoint_rows (call e)
    pure checkpoints
