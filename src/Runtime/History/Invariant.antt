-- ===== src/Runtime/History/Invariant.antt =====
-- The invariant of the tables holds in the whole life of the database.
use wlt_traffic.Base.{ℕ, ◌≤◌, ◌<◌, ◌≡◌, sym, subst, true, some, arith, inl, inr}
use wlt_traffic.Calendar.{date_of_day, day_of, current_date_utc, prune_cutoff_date, days_before}
use wlt_traffic.Calendar.TextOrder.{text_leb-later, year_mono}
use wlt_traffic.Storage.Types.{GoString, RecordKey, CheckpointRow}
use wlt_traffic.Storage.Text.{text_leb}
use wlt_traffic.Storage.Engine.{Engine, Session, Tables, IsExact}
use wlt_traffic.Storage.Prune.{prune_daily}
use wlt_traffic.Storage.Table.{find}
use wlt_traffic.Runtime.Flush.Synced.{IsSynced, counters_of}
use wlt_traffic.Runtime.Flush.Rows.{checkpoint_row, daily_row}
use wlt_traffic.Runtime.Flush.Invariant.{flush-IsSynced}
use wlt_traffic.Runtime.Flush.Days.{IsSynced-later, delete_older-IsSynced}
use wlt_traffic.Runtime.Housekeeping.Prune.{prune_daily_lem, run_once_repo}
use wlt_traffic.Runtime.History.{
  World, Step, flushed, housekept, waited, restarted, Reach, here, next, empty_tables,
}

-- the calendar of the model ends with the year 9999
abbrev pub Dated : ℕ → Type 0
Dated t = (date_of_day (day_of t)).year < 10_000

abbrev pub IsGood : World → Type 0
IsGood w = IsSynced (current_date_utc w.now) w.db.committed

current_later :
    (s t : ℕ) → s ≤ t → Dated t → text_leb (current_date_utc s) (current_date_utc t) ≡ true
unfolding current_date_utc
current_later s t h d = text_leb-later s t h d

cutoff_earlier : (t : ℕ) → Dated t → text_leb (prune_cutoff_date t) (current_date_utc t) ≡ true
unfolding current_date_utc prune_cutoff_date
cutoff_earlier t d = text_leb-later (days_before 400 t) t (omega arith) d

later-IsSynced :
    (s t : ℕ) (tables : Tables)
    → s ≤ t
    → Dated t
    → IsSynced (current_date_utc s) tables
    → IsSynced (current_date_utc t) tables
later-IsSynced s t tables h d =
    IsSynced-later (current_date_utc s) (current_date_utc t) tables (current_later s t h d)

module _ (e : Engine) (x : IsExact e) where
  prune_daily-IsSynced :
      (s : Session) (t : ℕ)
      → Dated t
      → IsSynced (current_date_utc t) s.committed
      → IsSynced (current_date_utc t) (prune_daily e (prune_cutoff_date t) s).1.committed
  prune_daily-IsSynced s t d h = elim (prune_daily_lem e (prune_cutoff_date t) s).0 [
    | inl p ↦ subst (IsSynced (current_date_utc t)) (sym p) (
        delete_older-IsSynced (prune_cutoff_date t) (current_date_utc t) s.committed
          (cutoff_earlier t d) h)
    | inr p ↦ subst (IsSynced (current_date_utc t)) (sym p) h
  ]

  Step-IsGood : {w v : World} → Step e w v → Dated v.now → IsGood w → IsGood v
  Step-IsGood {w} (flushed f fuel finished p le q) d h = later-IsSynced w.now finished _ le d (
      subst (λ (z : Session). IsSynced (current_date_utc w.now) z.committed) q
        (flush-IsSynced e fuel w.now finished f x
          (subst (λ (z : Session). IsSynced (current_date_utc w.now) z.committed) (sym p) h)))
  Step-IsGood {w} (housekept k later {s} p le q) d h =
      let now_dated : Dated w.now = omega (arith, year_mono w.now later le) in
      let same : (prune_daily e (prune_cutoff_date w.now) w.db).1 ≡ s =
        cc (run_once_repo e w.now later k w.db p, q) in
      later-IsSynced w.now later s.committed le d (
        subst (λ (z : Session). IsSynced (current_date_utc w.now) z.committed) same
          (prune_daily-IsSynced w.db w.now now_dated h))
  Step-IsGood {w} (waited later le) d h = later-IsSynced w.now later w.db.committed le d h
  Step-IsGood restarted d h = h

  Step-now : {w v : World} → Step e w v → w.now ≤ v.now
  Step-now (flushed f fuel finished p le q) = le
  Step-now (housekept k later p le q) = le
  Step-now (waited later le) = le
  Step-now restarted = omega arith

  -- Every history from a good state ends in a good state.
  pub Reach-IsGood : {w v : World} → Reach e w v → Dated v.now → IsGood w → IsGood v
  Reach-IsGood here d h = h
  Reach-IsGood (next {u = u} {v = v} r st) d h =
      let le = Step-now st in
      Step-IsGood st d (Reach-IsGood r (omega (arith, year_mono u.now v.now le)) h)

-- A new database is in the invariant on every day.
pub empty-IsSynced : (today : GoString) → IsSynced today empty_tables
unfolding find
empty-IsSynced today = record {
  at = λ k. record {
    fits = λ row f. cc;
    past = λ row f. cc;
    dated = λ d c f. cc;
    same = λ row f q. cc;
  };
}

-- In every history of a new database, until the year 9999: if the checkpoint of a key is of
-- today, the bucket of today holds exactly the raw counters of the checkpoint.
pub bucket-checkpoint :
    (e : Engine) {w v : World}
    → IsExact e
    → Reach e w v
    → w.db.committed ≡ empty_tables
    → Dated v.now
    → (k : RecordKey) (row : CheckpointRow) → checkpoint_row v.db.committed k ≡ some row
    → row.date_utc ≡ current_date_utc v.now
    → counters_of (daily_row v.db.committed k (current_date_utc v.now)) ≡ row.last
bucket-checkpoint e {w} {v} x r new d k row f q =
    let begun : IsGood w =
      subst (IsSynced (current_date_utc w.now)) (sym new)
        (empty-IsSynced (current_date_utc w.now)) in
    ((Reach-IsGood e x r d begun).at k).same row f q
