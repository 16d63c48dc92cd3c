-- ===== src/Runtime/Interleave/Quiet.antt =====
-- The flush loop writes nothing once its `Stop` has returned.
use wlt_traffic.Base.{◌≡◌, refl, ap, ◌∙◌, inl, inr}
use wlt_traffic.Storage.Types.{GoString}
use wlt_traffic.Error.{Result}
use wlt_traffic.Storage.Engine.{Engine, Tables}
use wlt_traffic.Storage.Prune.{delete_older}
use wlt_traffic.Http.Server.Traffic.{handle_traffic_keeps}
use wlt_traffic.Runtime.Housekeeping.Prune.{prune_daily_lem}
use wlt_traffic.Runtime.Interleave.{
  finished, over, Process, Step, started, ticked, loop_moved, tick_ended, loop_ended, cancel,
  stop_called, stop_gave_up, stop_woke, final_moved, final_ended, prune_began, pruned, answered,
  waited, Run, here, next, prune, answer_traffic,
}

-- the loop has ended, and `Stop` has returned
pub record IsStopped (p : Process) : Type 0 where
  pub result : Result (Unit {0})
  pub loop : p.loop ≡ finished
  pub stop : p.stop ≡ over result

-- the tables of the flush loop alone
pub record SameFlushed (t t' : Tables) : Type 0 where
  pub checkpoints : t'.checkpoints ≡ t.checkpoints
  pub totals : t'.totals ≡ t.totals

SameFlushed-eq : (t t' : Tables) → t' ≡ t → SameFlushed t t'
SameFlushed-eq t t' h = record {
  checkpoints = ap (λ u. u.checkpoints) h;
  totals = ap (λ u. u.totals) h;
}

SameFlushed-delete_older :
    (cutoff : GoString) (t t' : Tables) → t' ≡ delete_older cutoff t → SameFlushed t t'
unfolding delete_older
SameFlushed-delete_older cutoff t t' h = record {
  checkpoints = ap (λ u. u.checkpoints) h;
  totals = ap (λ u. u.totals) h;
}

abbrev IsQuiet : Process → Process → Type 0
IsQuiet p q = IsStopped q × SameFlushed p.flush_loop.repo.committed q.flush_loop.repo.committed

Step-IsQuiet : {e : Engine} {p q : Process} → Step e p q → IsStopped p → IsQuiet p q
unfolding prune answer_traffic
Step-IsQuiet (started h) o = cc (h, o.loop)
Step-IsQuiet (ticked h) o = cc (h, o.loop)
Step-IsQuiet (loop_moved m point h) o = cc (h, o.loop)
Step-IsQuiet (tick_ended r h) o = cc (h, o.loop)
Step-IsQuiet (loop_ended h t) o = cc (h, o.loop)
Step-IsQuiet {p = p} cancel o =
    (record { result = o.result; loop = o.loop; stop = o.stop }, SameFlushed-eq _ _ refl)
Step-IsQuiet (stop_called h) o = cc (h, o.stop)
Step-IsQuiet (stop_gave_up x h) o = cc (h, o.stop)
Step-IsQuiet (stop_woke h l) o = cc (h, o.stop)
Step-IsQuiet (final_moved m point h) o = cc (h, o.stop)
Step-IsQuiet (final_ended r h) o = cc (h, o.stop)
Step-IsQuiet (prune_began h) o =
    (record { result = o.result; loop = o.loop; stop = o.stop }, SameFlushed-eq _ _ refl)
Step-IsQuiet {e} {p} (pruned cutoff h) o = (
  record { result = o.result; loop = o.loop; stop = o.stop },
  elim (prune_daily_lem e cutoff p.flush_loop.repo).0 [
    | inl deleted ↦ SameFlushed-delete_older cutoff _ _ deleted
    | inr kept ↦ SameFlushed-eq _ _ kept
  ],
)
Step-IsQuiet {e} {p} (answered order later get) o = (
  record { result = o.result; loop = o.loop; stop = o.stop },
  SameFlushed-eq _ _ (handle_traffic_keeps e order p.now later get p.flush_loop.repo).0,
)
Step-IsQuiet (waited later le) o =
    (record { result = o.result; loop = o.loop; stop = o.stop }, SameFlushed-eq _ _ refl)

-- Once the loop has ended and `Stop` has returned, no further step of the process, whichever
-- goroutine takes it, changes a checkpoint or a total.
pub IsStopped-quiet :
    {e : Engine} {p q : Process}
    → Run e p q
    → IsStopped p
    → IsStopped q × SameFlushed p.flush_loop.repo.committed q.flush_loop.repo.committed
IsStopped-quiet here o = (o, SameFlushed-eq _ _ refl)
IsStopped-quiet (next r st) o =
    let (o', same) = IsStopped-quiet r o in
    let (o'', same') = Step-IsQuiet st o' in
    (
      o'',
      record {
        checkpoints = same'.checkpoints ∙ same.checkpoints;
        totals = same'.totals ∙ same.totals;
      },
    )
