-- ===== src/Error.antt =====
-- Go's `error` values of internal/storage, internal/runtime, internal/ebpf, internal/bootstrap and
-- internal/config. An error made by `fmt.Errorf("<stage>: %w", err)` is `wrapped stage err`: the
-- stage names the message, whose rendered text is not modelled.
use wlt_traffic.Base.{ℕ, ◌≡◌, Bool, true, false, Option, none, some}

-- one constructor for each message that wraps another error
pub data Stage : Type 0 where
  -- storage.go
  beginning_transaction upserting_daily_record committing_daily_upsert : Stage
  upserting_total_record committing_total_upsert : Stage
  upserting_checkpoint committing_checkpoint : Stage
  querying_checkpoint querying_daily_record querying_total_record : Stage
  listing_daily_records scanning_daily_record iterating_daily_rows : Stage
  listing_totals scanning_total_record iterating_total_rows : Stage
  pruning_daily_records getting_rows_affected : Stage
  listing_checkpoints scanning_checkpoint iterating_checkpoint_rows : Stage
  enabling_foreign_keys initializing_schema creating_totals creating_daily creating_checkpoints :
      Stage
  creating_idx_daily_date creating_idx_totals creating_idx_daily creating_idx_checkpoints : Stage
  committing_schema : Stage
  -- flush.go
  restoring_checkpoints final_flush getting_checkpoint updating_checkpoint persisting : Stage
  upserting_total upserting_daily committing_transaction : Stage
  -- housekeeping.go
  initial_housekeeping_run : Stage
  -- attachment.go, map.go and loader.go
  interface_not_found resolving_ifindex : Stage
  creating_map creating_traffic_map loading_collection object_not_found loading_spec : Stage
  adjusting_memlock : Stage
  -- runtime.go
  preparing_memlock loading_objects : Stage
  -- bootstrap.go
  checking_interface checking_qdisc : Stage
  -- config.go
  reading_config parsing_config : Stage
  -- testutil.go
  creating_temp_dir starting_service creating_repository starting_flush_loop : Stage
  creating_dummy setting_up : Stage

pub data Error : Type 0 where
  -- the error with this number of the SQLite driver, of the kernel's map or of a context
  driver : ℕ → Error
  -- database/sql: "uint64 values with high bit set are not supported"
  high_bit_set : Error
  -- database/sql: `sql.ErrTxDone`
  tx_done : Error
  -- the iteration of the model ran out of rounds; no error of the source
  out_of_fuel : Error
  -- runtime.go: "all interface attachments failed"
  all_failed : Error
  -- runtime.go: "partial interface attachment failure (allow_partial=false)"
  partial_failure : Error
  -- bootstrap.go: "root privileges required (CAP_SYS_ADMIN, CAP_NET_ADMIN)"
  root_required : Error
  -- bootstrap.go: "interface %q does not exist"
  interface_missing : Error
  wrapped : Stage → Error → Error

pub data Result {ℓ} (A : Type ℓ) : Type ℓ where
  ok : A → Result A
  err : Error → Result A

abbrev pub outcome : Option ℕ → Result (Unit {0})
outcome none = ok tt
outcome (some n) = err (driver n)

-- the first value after a success, the second after an error
abbrev pub on_ok {ℓ κ} : {A : Type ℓ} {B : Type κ} → Result A → B → B → B
on_ok (ok a) x y = x
on_ok (err e) x y = y

abbrev pub succeeded {ℓ} : {A : Type ℓ} → Result A → Bool
succeeded (ok a) = true
succeeded (err e) = false

-- the value of a success is `a`
abbrev pub Returns {ℓ} : {A : Type ℓ} → Result A → A → Type ℓ
Returns (ok b) a = b ≡ a
Returns (err e) a = Unit

-- `if err != nil { return nil, err }`
abbrev pub chain {ℓ κ} : {A : Type ℓ} {B : Type κ} → Result A → (A → Result B) → Result B
chain (ok a) f = f a
chain (err e) f = err e

-- `if err != nil { return nil, fmt.Errorf("<stage>: %w", err) }`
abbrev pub staged {ℓ} : {A : Type ℓ} → Stage → Result A → Result A
staged st (ok a) = ok a
staged st (err e) = err (wrapped st e)

-- a call that returns only an error
abbrev pub done : Option Error → Result (Unit {0})
done none = ok tt
done (some e) = err e
