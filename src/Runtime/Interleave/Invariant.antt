-- ===== src/Runtime/Interleave/Invariant.antt =====
-- The invariant of the tables, however the goroutines of the service are interleaved.
use wlt_traffic.Base.{
  ℕ, ◌≤◌, ◌≡◌, ◌≢◌, ap, Bool, false, refl, sym, subst, true, some, arith, inl, inr, if◌then◌else◌,
  ◌∙◌,
}
use wlt_traffic.Error.{Result, ok, err}
use wlt_traffic.Calendar.{current_date_utc, prune_cutoff_date}
use wlt_traffic.Calendar.TextOrder.{year_mono}
use wlt_traffic.Storage.Types.{RecordKey, CheckpointRow}
use wlt_traffic.Storage.Text.{text_leb_refl}
use wlt_traffic.Storage.Engine.{Engine, Session, Tables, IsExact}
use wlt_traffic.Storage.Prune.{prune_daily}
use wlt_traffic.Http.Server.{handle_traffic}
use wlt_traffic.Http.Server.Traffic.{handle_traffic_keeps}
use wlt_traffic.Runtime.Flush.{FlushLoop}
use wlt_traffic.Runtime.Flush.Synced.{IsSynced, counters_of}
use wlt_traffic.Runtime.Flush.Rows.{checkpoint_row, daily_row}
use wlt_traffic.Runtime.Flush.Lifecycle.{start_flush}
use wlt_traffic.Runtime.Housekeeping.Prune.{prune_daily_lem}
use wlt_traffic.Runtime.History.{empty_tables}
use wlt_traffic.Runtime.History.Invariant.{Dated, empty-IsSynced}
use wlt_traffic.Runtime.Interleave.{
  FlushPoint, loop_started, keep_error, selecting, flushing, finished, StopPoint, final, uncalled,
  waiting, over, resting, Process, Step, started, ticked, loop_moved, tick_ended, loop_ended,
  cancel, stop_called, stop_gave_up, stop_woke, final_moved, final_ended, prune_began, pruned,
  answered, waited, Life, born, lived, reborn, start_loop, move_loop, move_final, prune,
  answer_traffic, call_stop,
}
use wlt_traffic.Runtime.Interleave.Alone.{Life-IsAlone, IsAlone}
use wlt_traffic.Runtime.Interleave.Points.{
  IsGoodPoint, flush_move-IsGoodMove, flush_begin-IsGoodPoint,
}
use wlt_traffic.Runtime.Interleave.Frame.{
  IsGoodLoop, IsGoodStop, IsPastCutoff, IsGoodAt, IsGood, IsBrisk, start_flush-committed, retabled,
  IsGoodAt-later, at_loop, at_stop, at_keep, pruned-IsGoodAt,
}

-- what holds at the point of the loop or of `Stop`
flushing-IsGood :
    (p : Process) (point : FlushPoint)
    → p.loop ≡ flushing point
    → IsGood p
    → IsGoodPoint p.now p.flush_loop.repo.committed point
flushing-IsGood p point h g = subst (IsGoodLoop p.now p.flush_loop.repo.committed) h g.in_loop

final-IsGood :
    (p : Process) (point : FlushPoint)
    → p.stop ≡ final point
    → IsGood p
    → IsGoodPoint p.now p.flush_loop.repo.committed point
final-IsGood p point h g = subst (IsGoodStop p.now p.flush_loop.repo.committed) h g.in_stop

-- no final flush is under way
no_final :
    (now : ℕ) (t : Tables) (stop : StopPoint)
    → ((point : FlushPoint) → stop ≢ final point)
    → IsGoodStop now t stop
no_final now t (final point) n = absurd (n point refl)
no_final now t uncalled n = tt
no_final now t waiting n = tt
no_final now t (over r) n = tt

loop_started-IsGood :
    (now : ℕ) (t : Tables) (r : Result (Unit {0})) → IsGoodLoop now t (loop_started r)
unfolding loop_started
loop_started-IsGood now t (ok _) = tt
loop_started-IsGood now t (err x) = tt

keep_error_repo : (r : Result (Unit {0})) (f : FlushLoop) → (keep_error r f).repo ≡ f.repo
unfolding keep_error
keep_error_repo (ok _) f = refl
keep_error_repo (err x) f = refl

called_stop-IsGood :
    (p : Process)
    → IsGood p
    → (b : Bool)
    → IsGood (
        if b
        then record p { stop = over (ok tt) }
        else record p { flush_loop = record p.flush_loop { stopped = true }; stop = waiting })
called_stop-IsGood p g true = at_stop g (over (ok tt)) tt
called_stop-IsGood p g false = at_stop g waiting tt

module _ (e : Engine) (x : IsExact e) where
  Step-IsGood :
      {p q : Process} → Step e p q → Dated q.now → IsBrisk p → IsAlone p → IsGood p → IsGood q
  unfolding start_loop move_loop move_final prune answer_traffic call_stop
  Step-IsGood {p} (started h) d b a g =
      let g' =
        retabled p (start_flush e p.flush_loop).1.repo (start_flush-committed e p.flush_loop) g in
      at_loop g' _ (loop_started-IsGood _ _ (start_flush e p.flush_loop).0)
  Step-IsGood {p} (ticked h) d b a g =
      at_loop g _ (flush_begin-IsGoodPoint p.now p.flush_loop g.synced)
  Step-IsGood {p} (loop_moved m point h) d b a g =
      let moved =
        flush_move-IsGoodMove e x p.now m point p.flush_loop
          (flushing-IsGood p point h g, g.synced) in
      record {
        synced = moved.1;
        in_loop = moved.0;
        in_stop = no_final _ _ p.stop (λ pt s. ground (arith, a pt s, h));
        in_keep = g.in_keep;
      }
  Step-IsGood {p} (tick_ended r h) d b a g =
      at_loop
        (retabled p (keep_error r p.flush_loop).repo
          (ap (λ s. s.committed) (keep_error_repo r p.flush_loop)) g)
        selecting tt
  Step-IsGood (loop_ended h t) d b a g = at_loop g finished tt
  Step-IsGood cancel d b a g = g
  Step-IsGood {p} (stop_called h) d b a g = called_stop-IsGood p g p.flush_loop.stopped
  Step-IsGood (stop_gave_up y h) d b a g = at_stop g (over (err y)) tt
  Step-IsGood {p} (stop_woke h l) d b a g =
      at_stop g _ (flush_begin-IsGoodPoint p.now p.flush_loop g.synced)
  Step-IsGood {p} (final_moved m point h) d b a g =
      let moved =
        flush_move-IsGoodMove e x p.now m point p.flush_loop (final-IsGood p point h g, g.synced) in
      record {
        synced = moved.1;
        in_loop = subst (IsGoodLoop p.now _) (sym (a point h)) tt;
        in_stop = moved.0;
        in_keep = g.in_keep;
      }
  Step-IsGood (final_ended r h) d b a g = at_stop g _ tt
  Step-IsGood {p} (prune_began h) d b a g = at_keep g _ (text_leb_refl (prune_cutoff_date p.now))
  Step-IsGood {p} (pruned cutoff h) d b a g =
      let after = (prune_daily e cutoff p.flush_loop.repo).1 in
      elim (prune_daily_lem e cutoff p.flush_loop.repo).0 [
        | inl deleted ↦
            subst (λ t. IsGoodAt p.now t p.loop p.stop resting) (sym deleted)
              (pruned-IsGoodAt p.now d cutoff p.flush_loop.repo.committed
                (subst (IsPastCutoff p.now) h g.in_keep) p.loop p.stop p.pruner b.0 b.1 g)
        | inr kept ↦ at_keep (retabled p after kept g) resting tt
      ]
  Step-IsGood {p} (answered order later get) d b a g =
      retabled p (handle_traffic e order p.now later get p.flush_loop.repo).1
        (handle_traffic_keeps e order p.now later get p.flush_loop.repo).0 g
  Step-IsGood {p} (waited later le) d b a g =
      IsGoodAt-later p.now later le d p.flush_loop.repo.committed p.loop p.stop p.pruner g

  Step-now : {p q : Process} → Step e p q → p.now ≤ q.now
  unfolding start_loop move_loop move_final prune answer_traffic call_stop
  Step-now {p} (started h) = omega arith
  Step-now {p} (ticked h) = omega arith
  Step-now {p} (loop_moved m point h) = omega arith
  Step-now {p} (tick_ended r h) = omega arith
  Step-now {p} (loop_ended h t) = omega arith
  Step-now {p} cancel = omega arith
  Step-now {p} (stop_called h) = ground arith
  Step-now {p} (stop_gave_up y h) = omega arith
  Step-now {p} (stop_woke h l) = omega arith
  Step-now {p} (final_moved m point h) = omega arith
  Step-now {p} (final_ended r h) = omega arith
  Step-now {p} (prune_began h) = omega arith
  Step-now {p} (pruned cutoff h) = omega arith
  Step-now {p} (answered order later get) = omega arith
  Step-now {p} (waited later le) = le

-- a predicate holds of every process of a life before its last
abbrev pub Throughout :
    {e : Engine} {s : Session} (P : Process → Type 0) {p : Process} → Life e s p → Type 0
Throughout P (born now f h) = Unit
Throughout P (lived {p = p} l st) = P p × Throughout P l
Throughout P (reborn f l h) = Throughout P l

module _ (e : Engine) (x : IsExact e) (s : Session) (new : s.committed ≡ empty_tables) where
  Life-IsGood : {p : Process} → (l : Life e s p) → Dated p.now → Throughout IsBrisk l → IsGood p
  Life-IsGood (born now f h) d b = record {
    synced =
        subst (IsSynced (current_date_utc now)) (sym (ap (λ z. z.committed) h ∙ new))
          (empty-IsSynced (current_date_utc now));
    in_loop = tt;
    in_stop = tt;
    in_keep = tt;
  }
  Life-IsGood (lived {p = p} {q = q} l st) d b =
      let now_dated : Dated p.now = omega (arith, year_mono p.now q.now (Step-now e x st)) in
      Step-IsGood e x st d b.0 (Life-IsAlone l) (Life-IsGood l now_dated b.1)
  Life-IsGood (reborn {p = p} f l h) d b = record {
    synced =
        subst (IsSynced (current_date_utc p.now)) (sym (ap (λ z. z.committed) h))
          (Life-IsGood l d b).synced;
    in_loop = tt;
    in_stop = tt;
    in_keep = tt;
  }

  -- In every life of a new database, however the goroutines are interleaved and whichever calls fail,
  -- until the year 9999 and as long as no flush is under way that began 400 days ago: if the
  -- checkpoint of a key is of today, the bucket of today holds exactly its raw counters.
  pub interleaved_bucket :
      {p : Process}
      → (l : Life e s p) → Dated p.now
      → Throughout IsBrisk l
      → (k : RecordKey) (row : CheckpointRow)
      → checkpoint_row p.flush_loop.repo.committed k ≡ some row
      → row.date_utc ≡ current_date_utc p.now
      → counters_of (daily_row p.flush_loop.repo.committed k (current_date_utc p.now)) ≡ row.last
  interleaved_bucket l d b k row f q = ((Life-IsGood l d b).synced.at k).same row f q
