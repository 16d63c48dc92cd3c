-- ===== src/Runtime/Housekeeping/Prune.antt =====
-- What a run of the housekeeping loop leaves in the database.
use wlt_traffic.Base.{
  ℕ, ◌<◌, ◌≡◌, ◌∙◌, ◌⊎◌, refl, ap, sym, Bool, true, false, none, some, inl, inr, ltb, leb,
  if◌then◌else◌, arith,
}
use wlt_traffic.Error.{Error, Result, ok, err}
use wlt_traffic.Calendar.{prune_cutoff_date, format_date_utc, date_of_day, day_of, days_before}
use wlt_traffic.Calendar.TextOrder.{text_leb-format_date_utc}
use wlt_traffic.Storage.Text.{text_leb}
use wlt_traffic.Storage.Table.{find-delete_where}
use wlt_traffic.Runtime.Flush.Rows.{daily_row}
use wlt_traffic.Storage.Types.{GoString, RecordKey, DailyKey, DailyKey-discrete}
use wlt_traffic.Storage.Engine.{Engine, Session, call}
use wlt_traffic.Storage.Prune.{is_older, delete_older, rows_older, prune_daily}
use wlt_traffic.Runtime.Housekeeping.{HousekeepingLoop, run_once}

module _ (e : Engine) (cutoff : GoString) (s : Session) where
  -- Old rows are deleted or nothing is; a success deletes them and counts them.
  pub prune_daily_lem :
      let (r, s') = prune_daily e cutoff s in
      ((s'.committed ≡ delete_older cutoff s.committed) ⊎ (s'.committed ≡ s.committed))
      × (s'.pending ≡ s.pending)
      × ((n : ℕ)
          → r ≡ ok n
          → (s'.committed ≡ delete_older cutoff s.committed) × (n ≡ rows_older cutoff s.committed))
  unfolding prune_daily call
  prune_daily_lem = (ground arith, ground arith, λ n h. ground arith)

Result-cases : {A : Type 0} (r : Result A) → ((a : A) × (r ≡ ok a)) ⊎ ((x : Error) × (r ≡ err x))
Result-cases (ok a) = inl (a, refl)
Result-cases (err x) = inr (x, refl)

some_inj : {A : Type 0} {a b : A} → some a ≡ some b → a ≡ b
some_inj h = ground arith

older :
    {A : Type 0} (b : Bool) (m n : ℕ) (x y : A)
    → b ≡ leb n m
    → (if (if b then false else true) then x else y) ≡ (if ltb m n then x else y)
older b m n x y h = ground arith

module _ (e : Engine) (now later : ℕ) (h : HousekeepingLoop) (s : Session) where
  pub run_once_repo :
      h.repo ≡ some s
      → (run_once e now later h).1.repo ≡ some (prune_daily e (prune_cutoff_date now) s).1
  unfolding run_once
  run_once_repo p = ground arith

  run_once_ok :
      h.repo ≡ some s
      → (run_once e now later h).0 ≡ ok tt
      → (n : ℕ) × ((prune_daily e (prune_cutoff_date now) s).0 ≡ ok n)
  unfolding run_once
  run_once_ok p q = elim (Result-cases (prune_daily e (prune_cutoff_date now) s).0) [
    | inl (n, r) ↦ (n, r)
    | inr (x, r) ↦ ground arith
  ]

  -- A successful run keeps the buckets of the last 400 days and of today, and deletes all older
  -- ones, for the days until the year 9999.
  pub run_once_rows :
      (s' : Session)
      → h.repo ≡ some s
      → (run_once e now later h).0 ≡ ok tt
      → (run_once e now later h).1.repo ≡ some s'
      → (k : RecordKey) (t : ℕ) → (date_of_day (day_of t)).year < 10_000
      → (date_of_day (day_of (days_before 400 now))).year < 10_000
      → daily_row s'.committed k (format_date_utc t) ≡ (
          if ltb (day_of t) (day_of (days_before 400 now))
          then none
          else daily_row s.committed k (format_date_utc t))
  unfolding delete_older prune_cutoff_date
  run_once_rows s' p q r k t a b =
      let (n, good) = run_once_ok p q in
      let deleted = (prune_daily_lem e (prune_cutoff_date now) s).2 n good in
      let same : (prune_daily e (prune_cutoff_date now) s).1 ≡ s' =
        some_inj (sym (run_once_repo p) ∙ r) in
      let key : DailyKey = record { key = k; date_utc = format_date_utc t } in
      ap (λ u. daily_row u.committed k (format_date_utc t)) (sym same)
      ∙ ap (λ u. daily_row u k (format_date_utc t)) deleted.0
      ∙ find-delete_where DailyKey-discrete (is_older (prune_cutoff_date now)) key s.committed.daily
      ∙ older (text_leb (format_date_utc (days_before 400 now)) (format_date_utc t)) (day_of t)
          (day_of (days_before 400 now)) none (daily_row s.committed k (format_date_utc t))
          (text_leb-format_date_utc (days_before 400 now) t b a)
