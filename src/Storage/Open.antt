-- ===== src/Storage/Open.antt =====
-- `New` and `initSchema` of internal/storage/storage.go. `sql.Open` makes no call of the driver, and
-- the file holds the tables, or nothing yet, which are empty tables.
use wlt_traffic.Base.{suc, ◌≡◌, refl, ap, true, none, some, arith}
use wlt_traffic.Error.{
  Stage, Result, ok, err, succeeded, beginning_transaction, enabling_foreign_keys,
  initializing_schema, creating_totals, creating_daily, creating_checkpoints,
  creating_idx_daily_date, creating_idx_totals, creating_idx_daily, creating_idx_checkpoints,
  committing_schema,
}
use wlt_traffic.Exec.{wrap, deferred, proceed, ◌>>◌}
use wlt_traffic.Storage.Engine.{
  Engine, IsReliable, Session, Tables, Db, call, begin_tx, exec_tx, commit, rollback,
}

module _ (e : Engine) where
  -- `CREATE … IF NOT EXISTS` of what the tables of the model always have
  abbrev create : Stage → Db (Unit {0})
  create st = wrap st (exec_tx e (ok tt) (λ t. t))

  -- the statements of the transaction
  unfoldable pub create_all : Db (Unit {0})
  create_all = do
    create creating_totals
    create creating_daily
    create creating_checkpoints
    create creating_idx_daily_date
    create creating_idx_totals
    create creating_idx_daily
    create creating_idx_checkpoints
    wrap committing_schema (commit e)

  unfoldable pub init_schema : Db (Unit {0})
  init_schema = do wrap beginning_transaction (begin_tx e); deferred rollback create_all

  abbrev opened : Tables → Session
  opened file = record { committed = file; pending = none; calls = 0 }

  -- a repository that is not returned is closed
  unfoldable pub open_repository : Tables → Result Session
  open_repository file =
      let (r, s) =
        (do wrap enabling_foreign_keys (call e); wrap initializing_schema init_schema)
          (opened file) in
      elim r [ ok _ ↦ ok s | err x ↦ err x ]

module _ (e : Engine) (t : Tables) where
  -- the transaction has changed nothing
  abbrev Inside : Session → Type 0
  Inside s = (s.committed ≡ t) × (s.pending ≡ some t)

  abbrev Step : Db (Unit {0}) → Type 0
  Step m = (s : Session) → Inside s → Inside (m s).1 × (IsReliable e → succeeded (m s).0 ≡ true)

  -- the rest of the transaction
  abbrev Rest : Db (Unit {0}) → Type 0
  Rest m =
      (s : Session) → Inside s → ((m s).1.committed ≡ t) × (IsReliable e → succeeded (m s).0 ≡ true)

  proceed-Rest :
      (r : Result (Unit {0}) × Session) (k : Db (Unit {0}))
      → Inside r.1
      → (IsReliable e → succeeded r.0 ≡ true)
      → Rest k
      → let r' = proceed r (λ _. k) in (r'.1.committed ≡ t) × (IsReliable e → succeeded r'.0 ≡ true)
  proceed-Rest (ok _, s) k inside h rest = rest s inside
  proceed-Rest (err x, s) k inside h rest = (inside.0, h)

  then-Rest : (m k : Db (Unit {0})) → Step m → Rest k → Rest (m >> k)
  then-Rest m k step rest s inside = let (p, h) = step s inside in proceed-Rest (m s) k p h rest

  create-Step : (st : Stage) → Step (create e st)
  unfolding exec_tx call
  create-Step st s inside =
      (ground (arith, inside), λ r. ground (arith, inside, r.no_fault s.calls))

  commit-Rest : (st : Stage) → Rest (wrap st (commit e))
  unfolding commit
  commit-Rest st s inside =
      (ground (arith, inside), λ r. ground (arith, inside, r.no_fault s.calls))

  create_all-Rest : Rest (create_all e)
  unfolding create_all
  create_all-Rest =
      let last = commit-Rest committing_schema in
      let then_create = λ (st : Stage) (k : Db (Unit {0})) (rest : Rest k).
        then-Rest (create e st) k (create-Step st) rest in
      then_create creating_totals _ (
        then_create creating_daily _ (
          then_create creating_checkpoints _ (
            then_create creating_idx_daily_date _ (
              then_create creating_idx_totals _
                (then_create creating_idx_daily _ (then_create creating_idx_checkpoints _ last))))))

  init_schema_lem :
      (s : Session)
      → s.committed ≡ t
      → s.pending ≡ none
      → let (r, s') = init_schema e s in
        (s'.committed ≡ t) × (s'.pending ≡ none) × (IsReliable e → succeeded r ≡ true)
  unfolding init_schema begin_tx call
  init_schema_lem s same shut =
      let begun : Session = record s { pending = some s.committed; calls = suc s.calls } in
      let (p, h) = create_all-Rest begun (same, ap some same) in
      (
        ground (arith, same, shut, p),
        ground (arith, same, shut),
        λ r. ground (arith, h r, r.no_fault s.calls),
      )

-- A repository that is opened has no open transaction and the tables of the file, and where no
-- call of the driver fails it is opened.
pub open_repository_lem :
    (e : Engine) (file : Tables)
    → ((s : Session) → open_repository e file ≡ ok s → (s.committed ≡ file) × (s.pending ≡ none))
      × (IsReliable e → succeeded (open_repository e file) ≡ true)
unfolding open_repository call
open_repository_lem e file =
    let s : Session = record { committed = file; pending = none; calls = 1 } in
    let (p, q, h) = init_schema_lem e file s refl refl in
    (λ s' e'. ground (arith, e', p, q), λ r. ground (arith, r.no_fault 0, h r))
