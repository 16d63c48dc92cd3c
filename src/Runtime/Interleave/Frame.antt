-- ===== src/Runtime/Interleave/Frame.antt =====
-- The invariant of the tables together with the flushes that are under way, and what pruning, the
-- passing of time and the reading methods do to it.
use wlt_traffic.Base.{ℕ, ◌≤◌, ◌≡◌, refl, sym, subst, true, [], arith}
use wlt_traffic.Calendar.{current_date_utc, prune_cutoff_date, days_before}
use wlt_traffic.Calendar.TextOrder.{text_leb-later, year_mono}
use wlt_traffic.Storage.Types.{GoString}
use wlt_traffic.Storage.Text.{text_leb, text_leb_trans}
use wlt_traffic.Storage.Engine.{Engine, Session, Tables}
use wlt_traffic.Storage.Listing.Laws.{list_checkpoints-Reads}
use wlt_traffic.Runtime.Flush.Days.{IsSynced-later, delete_older-IsSynced}
use wlt_traffic.Storage.Prune.{delete_older}
use wlt_traffic.Runtime.Flush.{FlushLoop}
use wlt_traffic.Runtime.Flush.Synced.{IsSynced}
use wlt_traffic.Runtime.Flush.Lifecycle.{start_flush, restore_checkpoints}
use wlt_traffic.Runtime.History.Invariant.{Dated}
use wlt_traffic.Runtime.Interleave.{
  FlushPoint, LoopPoint, unstarted, selecting, flushing, finished, StopPoint, final, uncalled,
  waiting, over, KeepPoint, resting, pruning, Process,
}
use wlt_traffic.Runtime.Interleave.Points.{
  IsGoodPoint, IsGoodPoint-later, IsRecent, IsGoodPoint-delete_older,
}

abbrev pub IsGoodLoop : ℕ → Tables → LoopPoint → Type 0
IsGoodLoop now t (flushing point) = IsGoodPoint now t point
IsGoodLoop now t _ = Unit

abbrev pub IsGoodStop : ℕ → Tables → StopPoint → Type 0
IsGoodStop now t (final point) = IsGoodPoint now t point
IsGoodStop now t _ = Unit

-- a cutoff was computed before
abbrev pub IsPastCutoff : ℕ → KeepPoint → Type 0
IsPastCutoff now (pruning cutoff) = text_leb cutoff (prune_cutoff_date now) ≡ true
IsPastCutoff now resting = Unit

-- the tables with everything that is under way
pub record IsGoodAt (now : ℕ) (t : Tables) (loop : LoopPoint) (stop : StopPoint) (keep : KeepPoint)
    : Type 0 where
  pub synced : IsSynced (current_date_utc now) t
  pub in_loop : IsGoodLoop now t loop
  pub in_stop : IsGoodStop now t stop
  pub in_keep : IsPastCutoff now keep

-- a goroutine that goes to another point
module _ {now : ℕ} {t : Tables} {l : LoopPoint} {s : StopPoint} {k : KeepPoint}
    (g : IsGoodAt now t l s k) where
  pub at_loop : (l' : LoopPoint) → IsGoodLoop now t l' → IsGoodAt now t l' s k
  at_loop l' h = record { synced = g.synced; in_loop = h; in_stop = g.in_stop; in_keep = g.in_keep }

  pub at_stop : (s' : StopPoint) → IsGoodStop now t s' → IsGoodAt now t l s' k
  at_stop s' h = record { synced = g.synced; in_loop = g.in_loop; in_stop = h; in_keep = g.in_keep }

  pub at_keep : (k' : KeepPoint) → IsPastCutoff now k' → IsGoodAt now t l s k'
  at_keep k' h = record { synced = g.synced; in_loop = g.in_loop; in_stop = g.in_stop; in_keep = h }

abbrev pub IsGood : Process → Type 0
IsGood p = IsGoodAt p.now p.flush_loop.repo.committed p.loop p.stop p.pruner

-- No flush is under way that began on a day old enough to be pruned.
abbrev pub IsBrisk : Process → Type 0
IsBrisk p =
    ((point : FlushPoint) → p.loop ≡ flushing point → IsRecent p.now point)
    × ((point : FlushPoint) → p.stop ≡ final point → IsRecent p.now point)

pub start_flush-committed :
    (e : Engine) (f : FlushLoop) → (start_flush e f).1.repo.committed ≡ f.repo.committed
unfolding start_flush restore_checkpoints
start_flush-committed e f = ground (arith, (list_checkpoints-Reads e [] f.repo).committed)

-- what changes no table and no point of a flush
pub retabled :
    (p : Process) (s : Session)
    → s.committed ≡ p.flush_loop.repo.committed
    → IsGood p
    → IsGoodAt p.now s.committed p.loop p.stop p.pruner
retabled p s h = subst (λ t. IsGoodAt p.now t p.loop p.stop p.pruner) (sym h)

-- time passes
module _ (now later : ℕ) (le : now ≤ later) (d : Dated later) where
  current_later : text_leb (current_date_utc now) (current_date_utc later) ≡ true
  unfolding current_date_utc
  current_later = text_leb-later now later le d

  cutoff_later : text_leb (prune_cutoff_date now) (prune_cutoff_date later) ≡ true
  unfolding prune_cutoff_date
  cutoff_later =
      text_leb-later (days_before 400 now) (days_before 400 later) (omega arith)
        (omega (arith, year_mono (days_before 400 later) later (omega arith)))

  IsGoodLoop-later : (t : Tables) (l : LoopPoint) → IsGoodLoop now t l → IsGoodLoop later t l
  IsGoodLoop-later t (flushing point) h = IsGoodPoint-later now later t point current_later h
  IsGoodLoop-later t unstarted h = tt
  IsGoodLoop-later t selecting h = tt
  IsGoodLoop-later t finished h = tt

  IsGoodStop-later : (t : Tables) (l : StopPoint) → IsGoodStop now t l → IsGoodStop later t l
  IsGoodStop-later t (final point) h = IsGoodPoint-later now later t point current_later h
  IsGoodStop-later t uncalled h = tt
  IsGoodStop-later t waiting h = tt
  IsGoodStop-later t (over r) h = tt

  IsPastCutoff-later : (k : KeepPoint) → IsPastCutoff now k → IsPastCutoff later k
  IsPastCutoff-later resting h = tt
  IsPastCutoff-later (pruning cutoff) h =
      text_leb_trans cutoff (prune_cutoff_date now) (prune_cutoff_date later) h cutoff_later

  pub IsGoodAt-later :
      (t : Tables) (l : LoopPoint) (s : StopPoint) (k : KeepPoint)
      → IsGoodAt now t l s k
      → IsGoodAt later t l s k
  IsGoodAt-later t l s k g = record {
    synced =
        IsSynced-later (current_date_utc now) (current_date_utc later) t current_later g.synced;
    in_loop = IsGoodLoop-later t l g.in_loop;
    in_stop = IsGoodStop-later t s g.in_stop;
    in_keep = IsPastCutoff-later k g.in_keep;
  }

-- a pruning
module _ (now : ℕ) (d : Dated now) (cutoff : GoString) (t : Tables)
    (old : text_leb cutoff (prune_cutoff_date now) ≡ true) where
  old_today : text_leb cutoff (current_date_utc now) ≡ true
  unfolding current_date_utc prune_cutoff_date
  old_today =
      text_leb_trans cutoff (prune_cutoff_date now) (current_date_utc now) old
        (text_leb-later (days_before 400 now) now (omega arith) d)

  pruned_loop :
      (l : LoopPoint)
      → ((point : FlushPoint) → l ≡ flushing point → IsRecent now point)
      → IsGoodLoop now t l
      → IsGoodLoop now (delete_older cutoff t) l
  pruned_loop (flushing point) recent h =
      IsGoodPoint-delete_older cutoff now t old point (recent point refl) h
  pruned_loop unstarted recent h = tt
  pruned_loop selecting recent h = tt
  pruned_loop finished recent h = tt

  pruned_stop :
      (l : StopPoint)
      → ((point : FlushPoint) → l ≡ final point → IsRecent now point)
      → IsGoodStop now t l
      → IsGoodStop now (delete_older cutoff t) l
  pruned_stop (final point) recent h =
      IsGoodPoint-delete_older cutoff now t old point (recent point refl) h
  pruned_stop uncalled recent h = tt
  pruned_stop waiting recent h = tt
  pruned_stop (over r) recent h = tt

  pub pruned-IsGoodAt :
      (l : LoopPoint) (s : StopPoint) (k : KeepPoint)
      → ((point : FlushPoint) → l ≡ flushing point → IsRecent now point)
      → ((point : FlushPoint) → s ≡ final point → IsRecent now point)
      → IsGoodAt now t l s k
      → IsGoodAt now (delete_older cutoff t) l s resting
  pruned-IsGoodAt l s k in_loop in_stop g = record {
    synced = delete_older-IsSynced cutoff (current_date_utc now) t old_today g.synced;
    in_loop = pruned_loop l in_loop g.in_loop;
    in_stop = pruned_stop s in_stop g.in_stop;
    in_keep = tt;
  }
