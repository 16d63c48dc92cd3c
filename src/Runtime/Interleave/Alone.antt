-- ===== src/Runtime/Interleave/Alone.antt =====
-- No two flushes at once: the final flush of `Stop` waits for the end of `runLoop`.
use wlt_traffic.Base.{◌≡◌, ◌≢◌, arith}
use wlt_traffic.Storage.Engine.{Engine, Session}
use wlt_traffic.Runtime.Interleave.{
  FlushPoint, flushing, finished, final, Process, Step, started, ticked, loop_moved, tick_ended,
  loop_ended, cancel, stop_called, stop_gave_up, stop_woke, final_moved, final_ended, prune_began,
  pruned, answered, waited, Life, born, lived, reborn, start_loop, move_loop, move_final, prune,
  answer_traffic, call_stop,
}

-- while the final flush is under way, the loop has ended
abbrev pub IsAlone : Process → Type 0
IsAlone p = (point : FlushPoint) → p.stop ≡ final point → p.loop ≡ finished

pub Step-IsAlone : {e : Engine} {p q : Process} → Step e p q → IsAlone p → IsAlone q
unfolding start_loop move_loop move_final prune answer_traffic call_stop
Step-IsAlone {p = p} (started h) a point s = ground (arith, a point s, h)
Step-IsAlone {p = p} (ticked h) a point s = ground (arith, a point s, h)
Step-IsAlone (loop_moved m pt h) a point s = ground (arith, a point s, h)
Step-IsAlone (tick_ended r h) a point s = ground (arith, a point s, h)
Step-IsAlone (loop_ended h t) a point s = ground (arith, a point s, h)
Step-IsAlone cancel a point s = a point s
Step-IsAlone (stop_called h) a point s = ground (arith, a point)
Step-IsAlone (stop_gave_up x h) a point s = ground arith
Step-IsAlone (stop_woke h l) a point s = l
Step-IsAlone (final_moved m pt h) a point s = a pt h
Step-IsAlone (final_ended r h) a point s = ground arith
Step-IsAlone (prune_began h) a point s = a point s
Step-IsAlone (pruned cutoff h) a point s = a point s
Step-IsAlone (answered order later get) a point s = a point s
Step-IsAlone (waited later le) a point s = a point s

pub Life-IsAlone : {e : Engine} {s : Session} {p : Process} → Life e s p → IsAlone p
Life-IsAlone (born now f h) point s = ground arith
Life-IsAlone (lived l st) point s = Step-IsAlone st (Life-IsAlone l) point s
Life-IsAlone (reborn f l h) point s = ground arith

-- In every life of a database, however the goroutines are interleaved: while a flush of the loop is
-- under way, the final flush of `Stop` is not.
pub flushes_alone :
    {e : Engine} {s : Session} {p : Process}
    → Life e s p
    → (one two : FlushPoint) → p.loop ≡ flushing one
    → p.stop ≢ final two
flushes_alone l one two h t = ground (arith, Life-IsAlone l two t)
