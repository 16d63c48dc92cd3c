-- ===== src/Runtime/Flush/Days.antt =====
-- The invariant `IsSynced` when the day changes and when old buckets are pruned.
use wlt_traffic.Base.{◌≡◌, sym, subst, ◌∙◌, ap, true, none, arith, if◌then◌else◌}
use wlt_traffic.Storage.Types.{GoString, RecordKey, DailyKey-discrete}
use wlt_traffic.Storage.Text.{text_leb, text_leb_trans, text_leb_antisymm, text_ltb}
use wlt_traffic.Storage.Table.{find-delete_where}
use wlt_traffic.Storage.Engine.{Tables}
use wlt_traffic.Storage.Prune.{is_older, delete_older}
use wlt_traffic.Runtime.Flush.Rows.{daily_row}
use wlt_traffic.Runtime.Flush.Synced.{SyncedKey, IsSynced, counters_of}

module _ (today later : GoString) (t : Tables) (h : text_leb today later ≡ true) where
  IsSynced-later_key : (k : RecordKey) → SyncedKey today t k → SyncedKey later t k
  IsSynced-later_key k s = record {
    fits = s.fits;
    past = λ row f. text_leb_trans row.date_utc today later (s.past row f) h;
    dated = s.dated;
    same = λ row f q.
        let p : today ≡ later =
          text_leb_antisymm today later h (subst (λ d. text_leb d today ≡ true) q (s.past row f)) in
        subst (λ d. counters_of (daily_row t k d) ≡ row.last) p (s.same row f (q ∙ sym p));
  }

  -- A later day has the invariant too.
  pub IsSynced-later : IsSynced today t → IsSynced later t
  IsSynced-later s = record { at = λ k. IsSynced-later_key k (s.at k) }

-- the row of a bucket after pruning
pub daily_row-delete_older :
    (cutoff : GoString) (t : Tables) (k : RecordKey) (d : GoString)
    → daily_row (delete_older cutoff t) k d ≡ (if text_ltb d cutoff then none else daily_row t k d)
unfolding delete_older
daily_row-delete_older cutoff t k d =
    find-delete_where DailyKey-discrete (is_older cutoff) (record { key = k; date_utc = d }) t.daily

module _ (cutoff today : GoString) (t : Tables) (h : text_leb cutoff today ≡ true) where
  daily_row-delete_older_today :
      (k : RecordKey) → daily_row (delete_older cutoff t) k today ≡ daily_row t k today
  daily_row-delete_older_today k = ground (arith, daily_row-delete_older cutoff t k today)

  delete_older-SyncedKey :
      (k : RecordKey) → SyncedKey today t k → SyncedKey today (delete_older cutoff t) k
  unfolding delete_older
  delete_older-SyncedKey k s = record {
    fits = s.fits;
    past = s.past;
    dated = λ d c f. s.dated d c (ground (arith, daily_row-delete_older cutoff t k d));
    same = λ row f q. ap counters_of (daily_row-delete_older_today k) ∙ s.same row f q;
  }

  -- Pruning what is older than a cutoff in the past keeps the invariant.
  pub delete_older-IsSynced : IsSynced today t → IsSynced today (delete_older cutoff t)
  delete_older-IsSynced s = record { at = λ k. delete_older-SyncedKey k (s.at k) }
