-- ===== src/Runtime/Interleave/Points.antt =====
-- What holds of the tables while a call of `Flush` is under way.
use wlt_traffic.Base.{
  ℕ, ◌≡◌, refl, sym, subst, true, Option, none, some, arith, inl, inr, Option-cases,
}
use wlt_traffic.Error.{Result, ok, err, getting_checkpoint}
use wlt_traffic.Exec.{wrap}
use wlt_traffic.Calendar.{current_date_utc, prune_cutoff_date}
use wlt_traffic.Storage.Types.{GoString, RecordKey, Checkpoint}
use wlt_traffic.Storage.Text.{text_leb, text_leb_refl, text_leb_trans}
use wlt_traffic.Storage.Engine.{Engine, Session, Tables, IsExact}
use wlt_traffic.Storage.Prune.{delete_older}
use wlt_traffic.Storage.Query.{get_checkpoint, checkpoint_in}
use wlt_traffic.Ebpf.TrafficMap.{
  TrafficKey, TrafficCounter, BpfMap, MapIterator, next as next_entry,
}
use wlt_traffic.Runtime.Flush.{FlushLoop, record_key, kernel_map, on_repo}
use wlt_traffic.Runtime.Flush.Synced.{IsSynced}
use wlt_traffic.Runtime.Flush.Days.{IsSynced-later, delete_older-IsSynced}
use wlt_traffic.Runtime.Interleave.{
  FlushPoint, walking, found, checked, returned, flush_write, flush_move, after_next, after_read,
  after_write, flush_begin,
}
use wlt_traffic.Runtime.Interleave.Write.{flush_write-IsSynced}

-- the day of a flush has come, and the tables are in its invariant
pub record IsOnDay (now : ℕ) (today : GoString) (t : Tables) : Type 0 where
  pub past : text_leb today (current_date_utc now) ≡ true
  pub synced : IsSynced today t

abbrev pub IsGoodPoint : ℕ → Tables → FlushPoint → Type 0
IsGoodPoint now t (walking today mi) = IsOnDay now today t
IsGoodPoint now t (found today mi key counter) = IsOnDay now today t
IsGoodPoint now t (checked today mi key counter cp) =
    IsOnDay now today t × (cp ≡ checkpoint_in t (record_key key))
IsGoodPoint now t (returned r) = Unit

abbrev pub IsGoodMove : ℕ → FlushPoint × FlushLoop → Type 0
IsGoodMove now (point, f) =
    IsGoodPoint now f.repo.committed point × IsSynced (current_date_utc now) f.repo.committed

IsOnDay-now :
    (now : ℕ) (today : GoString) (t : Tables)
    → IsOnDay now today t
    → IsSynced (current_date_utc now) t
IsOnDay-now now today t d = IsSynced-later today (current_date_utc now) t d.past d.synced

get_checkpoint_lem :
    (e : Engine) (k : RecordKey) (s : Session)
    → let (r, s') = wrap getting_checkpoint (get_checkpoint e k) s in
      (s'.committed ≡ s.committed)
      × ((cp : Option Checkpoint) → r ≡ ok cp → cp ≡ checkpoint_in s.committed k)
unfolding get_checkpoint
get_checkpoint_lem e k s = (ground arith, λ cp h. ground arith)

module _ (now : ℕ) (today : GoString) (f : FlushLoop) where
  after_next-IsGoodMove :
      IsOnDay now today f.repo.committed
      → (x : MapIterator × Option (TrafficKey × TrafficCounter))
      → IsGoodMove now (after_next now today f x)
  after_next-IsGoodMove d (mi, none) = (tt, IsOnDay-now now today f.repo.committed d)
  after_next-IsGoodMove d (mi, some entry) = (d, IsOnDay-now now today f.repo.committed d)

  after_read-IsGoodMove :
      (mi : MapIterator) (key : TrafficKey) (counter : TrafficCounter)
      → IsOnDay now today f.repo.committed
      → (x : Result (Option Checkpoint) × Session) → x.1.committed ≡ f.repo.committed
      → ((cp : Option Checkpoint)
          → x.0 ≡ ok cp
          → cp ≡ checkpoint_in f.repo.committed (record_key key))
      → IsGoodMove now (after_read (checked today mi key counter) (on_repo (λ s. x) f))
  after_read-IsGoodMove mi key counter d (ok cp, s) same fact =
      subst
        (λ t.
          (IsOnDay now today t × (cp ≡ checkpoint_in t (record_key key)))
          × IsSynced (current_date_utc now) t)
        (sym same) ((d, fact cp refl), IsOnDay-now now today f.repo.committed d)
  after_read-IsGoodMove mi key counter d (err x, s) same fact = (
    tt,
    subst (IsSynced (current_date_utc now)) (sym same) (IsOnDay-now now today f.repo.committed d),
  )

  after_write-IsGoodMove :
      (mi : MapIterator)
      → text_leb today (current_date_utc now) ≡ true
      → (x : Result (Unit {0}) × Session) → IsSynced today x.1.committed
      → IsGoodMove now (after_write (walking today mi) (on_repo (λ s. x) f))
  after_write-IsGoodMove mi le (ok _, s) h =
      let d : IsOnDay now today s.committed = record { past = le; synced = h } in
      (d, IsOnDay-now now today s.committed d)
  after_write-IsGoodMove mi le (err x, s) h =
      (tt, IsOnDay-now now today s.committed (record { past = le; synced = h }))

-- A call in a flush keeps the invariant, and what holds at the point of the flush.
module _ (e : Engine) (x : IsExact e) (now : ℕ) where
  pub flush_move-IsGoodMove :
      (m : BpfMap) (point : FlushPoint) (f : FlushLoop)
      → IsGoodMove now (point, f)
      → IsGoodMove now (flush_move e m now point f)
  unfolding flush_move
  flush_move-IsGoodMove m (walking today mi) f h =
      after_next-IsGoodMove now today f h.0 (next_entry m mi)
  flush_move-IsGoodMove m (found today mi key counter) f h =
      let fact = get_checkpoint_lem e (record_key key) f.repo in
      after_read-IsGoodMove now today f mi key counter h.0
        (wrap getting_checkpoint (get_checkpoint e (record_key key)) f.repo) fact.0 fact.1
  flush_move-IsGoodMove m (checked today mi key counter cp) f ((d, p), h) =
      after_write-IsGoodMove now today f mi d.past (flush_write e today key counter cp f.repo) (
        subst (λ c. IsSynced today (flush_write e today key counter c f.repo).1.committed) (sym p)
          (flush_write-IsSynced e today key counter f.repo x d.synced))
  flush_move-IsGoodMove m (returned r) f h = h

pub flush_begin-IsGoodPoint :
    (now : ℕ) (f : FlushLoop)
    → IsSynced (current_date_utc now) f.repo.committed
    → IsGoodPoint now f.repo.committed (flush_begin now f)
unfolding flush_begin
flush_begin-IsGoodPoint now f h = elim (Option-cases (kernel_map f.traffic_map)) [
  | inl mock ↦ rw (mock, flush_begin) tt
  | inr (m, real) ↦
      rw (real, flush_begin) (record { past = text_leb_refl (current_date_utc now); synced = h })
]

-- time passes
IsOnDay-later :
    (now later : ℕ) (today : GoString) (t : Tables)
    → text_leb (current_date_utc now) (current_date_utc later) ≡ true
    → IsOnDay now today t
    → IsOnDay later today t
IsOnDay-later now later today t le d = record {
  past = text_leb_trans today (current_date_utc now) (current_date_utc later) d.past le;
  synced = d.synced;
}

pub IsGoodPoint-later :
    (now later : ℕ) (t : Tables) (point : FlushPoint)
    → text_leb (current_date_utc now) (current_date_utc later) ≡ true
    → IsGoodPoint now t point
    → IsGoodPoint later t point
IsGoodPoint-later now later t (walking today mi) le h = IsOnDay-later now later today t le h
IsGoodPoint-later now later t (found today mi key counter) le h =
    IsOnDay-later now later today t le h
IsGoodPoint-later now later t (checked today mi key counter cp) le (h, p) =
    (IsOnDay-later now later today t le h, p)
IsGoodPoint-later now later t (returned r) le h = tt

-- the day of a flush is not old enough to be pruned
abbrev pub IsRecent : ℕ → FlushPoint → Type 0
IsRecent now (walking today mi) = text_leb (prune_cutoff_date now) today ≡ true
IsRecent now (found today mi key counter) = text_leb (prune_cutoff_date now) today ≡ true
IsRecent now (checked today mi key counter cp) = text_leb (prune_cutoff_date now) today ≡ true
IsRecent now (returned r) = Unit

-- and then a pruning leaves it alone
module _ (cutoff : GoString) (now : ℕ) (t : Tables)
    (old : text_leb cutoff (prune_cutoff_date now) ≡ true) where
  IsOnDay-delete_older :
      (today : GoString)
      → text_leb (prune_cutoff_date now) today ≡ true
      → IsOnDay now today t
      → IsOnDay now today (delete_older cutoff t)
  IsOnDay-delete_older today recent d = record {
    past = d.past;
    synced =
        delete_older-IsSynced cutoff today t
          (text_leb_trans cutoff (prune_cutoff_date now) today old recent) d.synced;
  }

  pub IsGoodPoint-delete_older :
      (point : FlushPoint)
      → IsRecent now point
      → IsGoodPoint now t point
      → IsGoodPoint now (delete_older cutoff t) point
  unfolding delete_older
  IsGoodPoint-delete_older (walking today mi) recent d = IsOnDay-delete_older today recent d
  IsGoodPoint-delete_older (found today mi key counter) recent d =
      IsOnDay-delete_older today recent d
  IsGoodPoint-delete_older (checked today mi key counter cp) recent (d, p) =
      (IsOnDay-delete_older today recent d, p)
  IsGoodPoint-delete_older (returned r) recent d = tt
