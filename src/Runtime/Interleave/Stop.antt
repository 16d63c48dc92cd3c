-- ===== src/Runtime/Interleave/Stop.antt =====
-- `Stop` of the flush loop can return, with the result of its final flush.
use wlt_traffic.Base.{ℕ, zero, suc, ◌≡◌, ◌≢◌, refl, subst, true, false, none, some, inl, arith}
use wlt_traffic.Error.{err, out_of_fuel, staged, final_flush}
use wlt_traffic.Storage.Engine.{Engine}
use wlt_traffic.Ebpf.TrafficMap.{BpfMap}
use wlt_traffic.Runtime.Flush.{FlushLoop, flush, kernel_map}
use wlt_traffic.Runtime.Flush.Lifecycle.{stop_flush}
use wlt_traffic.Runtime.Interleave.{
  FlushPoint, returned, flush_move, flush_begin, selecting, finished, uncalled, waiting, final,
  over, Process, loop_ended, stop_called, stop_woke, final_moved, final_ended, Run, here, next,
  call_stop, move_final,
}
use wlt_traffic.Runtime.Interleave.Moves.{moves, flush-Returns}

Run-join : {e : Engine} {p q r : Process} → Run e p q → Run e q r → Run e p r
Run-join u here = u
Run-join u (next v st) = next (Run-join u v) st

-- the final flush at a point, with the loop's state
abbrev at_final : Process → FlushPoint × FlushLoop → Process
at_final p (point, f) = record p { stop = final point; flush_loop = f }

module _ (e : Engine) (m : BpfMap) where
  moves-Run :
      (n : ℕ) (p : Process) (x : FlushPoint × FlushLoop)
      → Run e (at_final p x) (at_final p (moves e m p.now n x))
  unfolding moves move_final
  moves-Run zero p x = here
  moves-Run (suc n) p x =
      Run-join (next here (final_moved m x.0 refl)) (moves-Run n p (flush_move e m p.now x.0 x.1))

  abbrev woken : Process → Process
  woken p = record p {
    flush_loop = record p.flush_loop { stopped = true };
    loop = finished;
    stop = final (flush_begin p.now (record p.flush_loop { stopped = true }));
  }

  woken-Run :
      (p : Process)
      → p.loop ≡ selecting
      → p.stop ≡ uncalled
      → p.flush_loop.stopped ≡ false
      → Run e p (woken p)
  unfolding call_stop
  woken-Run p l s n =
      let asked : Process = record p {
        flush_loop = record p.flush_loop { stopped = true };
        stop = waiting;
      } in
      let called : Run e p asked =
        subst (λ q. Run e p q) (ground (arith, n)) (next here (stop_called s)) in
      next (next called (loop_ended l (inl refl))) (stop_woke refl refl)

  stop_flush_first :
      (fuel started ended : ℕ) (f : FlushLoop)
      → f.stopped ≡ false
      → let x = flush e fuel started ended (record f { stopped = true }) in
        (staged final_flush x.0, x.1) ≡ stop_flush e fuel started ended none f
  unfolding stop_flush
  stop_flush_first fuel started ended f n = ground (arith, n)

  -- If the loop waits for its ticker, and the final flush does not run out of fuel: `Stop`, called
  -- for the first time, has a run in which it returns what `stop_flush` does.
  pub stop_flush-Run :
      (fuel : ℕ) (p : Process)
      → p.loop ≡ selecting
      → p.stop ≡ uncalled
      → p.flush_loop.stopped ≡ false
      → kernel_map p.flush_loop.traffic_map ≡ some m
      → (flush e fuel p.now p.now (record p.flush_loop { stopped = true })).0 ≢ err out_of_fuel
      → let (r, f) = stop_flush e fuel p.now p.now none p.flush_loop in
        Run e p (record p { flush_loop = f; loop = finished; stop = over r })
  stop_flush-Run fuel p l s n real h =
      let f : FlushLoop = record p.flush_loop { stopped = true } in
      let r = flush-Returns e m p.now fuel f real h in
      let asleep : Process = record p { loop = finished } in
      let x = flush e fuel p.now p.now f in
      let flushed : Run e p (at_final asleep (returned x.0, x.1)) =
        subst (λ y. Run e p (at_final asleep y)) r.ended
          (Run-join (woken-Run p l s n) (moves-Run r.count asleep (flush_begin p.now f, f))) in
      subst (λ y. Run e p (record p { flush_loop = y.1; loop = finished; stop = over y.0 }))
        (stop_flush_first fuel p.now p.now p.flush_loop n) (next flushed (final_ended x.0 refl))
