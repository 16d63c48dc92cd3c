-- ===== src/Runtime/Flush/Lifecycle.antt =====
-- `Start`, `Stop` and `restoreCheckpoints` of internal/runtime/flush.go.
use wlt_traffic.Base.{ℕ, ◌≡◌, refl, [], true, Option, none, some, arith, if◌then◌else◌}
use wlt_traffic.Error.{
  Error, Result, ok, err, listing_checkpoints, restoring_checkpoints, final_flush,
}
use wlt_traffic.Exec.{Exec, wrap, in_stage}
use wlt_traffic.Storage.Engine.{Engine, Session}
use wlt_traffic.Storage.Listing.{list_checkpoints}
use wlt_traffic.Runtime.Flush.{FlushLoop, flush, flush_end}

abbrev only_error {ℓ} : {A : Type ℓ} → Result A → Result (Unit {0})
only_error (ok a) = ok tt
only_error (err x) = err x

abbrev put_repo : FlushLoop → Result (Unit {0}) × Option Session → Result (Unit {0}) × FlushLoop
put_repo f (r, none) = (r, f)
put_repo f (r, some s) = (r, record f { repo = s })

module _ (e : Engine) where
  -- the checkpoints are listed and not kept; without a repository there is nothing to list
  unfoldable pub restore_checkpoints : Option Session → Result (Unit {0}) × Option Session
  restore_checkpoints none = (ok tt, none)
  restore_checkpoints (some s) =
      let (r, s') = wrap listing_checkpoints (list_checkpoints e []) s in (only_error r, some s')

  -- `Start(ctx)`, up to the start of `runLoop`
  unfoldable pub start_flush : Exec FlushLoop (Unit {0})
  start_flush f = in_stage restoring_checkpoints (put_repo f (restore_checkpoints (some f.repo)))

  -- `Stop(ctx)`: `waited` is `ctx.Err()` if the context ends before the loop does
  unfoldable pub stop_flush : ℕ → ℕ → ℕ → Option Error → Exec FlushLoop (Unit {0})
  stop_flush fuel started finished waited f =
      let g = record f { stopped = true } in
      let last = in_stage final_flush (flush e fuel started finished g) in
      if f.stopped then (ok tt, f) else elim waited [ some x ↦ (err x, g) | none ↦ last ]

  flush_stopped :
      (fuel started finished : ℕ) (f : FlushLoop)
      → (flush e fuel started finished f).1.stopped ≡ f.stopped
  unfolding flush flush_end
  flush_stopped fuel started finished f = ground arith

  stopped_after :
      (fuel started finished : ℕ) (waited : Option Error) (f : FlushLoop)
      → (stop_flush fuel started finished waited f).1.stopped ≡ true
  unfolding stop_flush
  stopped_after fuel started finished waited f =
      ground (arith, flush_stopped fuel started finished (record f { stopped = true }))

  -- However the first `Stop` ended, a second one returns no error and flushes nothing.
  pub stop_flush_twice :
      (fuel started finished started' finished' : ℕ) (waited waited' : Option Error) (f : FlushLoop)
      → let g = (stop_flush fuel started finished waited f).1 in
        stop_flush fuel started' finished' waited' g ≡ (ok tt, g)
  unfolding stop_flush
  stop_flush_twice fuel started finished started' finished' waited waited' f =
      rw (stopped_after fuel started finished waited f, stop_flush) refl
