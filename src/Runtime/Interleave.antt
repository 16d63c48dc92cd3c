-- ===== src/Runtime/Interleave.antt =====
-- The goroutines of the service on one database: the loop of internal/runtime/flush.go, its `Stop`
-- with the final flush, the runs of internal/runtime/housekeeping.go and the requests for traffic.
-- Any of them may move between two calls of another; a call of `Repository`, and `persistAll` with
-- its transaction, is one move.
pub mod Alone
pub mod Write
pub mod Points
pub mod Frame
pub mod Invariant
pub mod Quiet
pub mod Moves
pub mod Stop
use wlt_traffic.Base.{ℕ, ◌≤◌, ◌≡◌, ◌⊎◌, Bool, true, false, Option, none, some, if◌then◌else◌}
use wlt_traffic.Error.{
  Error, Result, ok, err, getting_checkpoint, updating_checkpoint, persisting, final_flush, staged,
}
use wlt_traffic.Exec.{wrap}
use wlt_traffic.Calendar.{current_date_utc, prune_cutoff_date}
use wlt_traffic.Storage.Types.{GoString, Checkpoint}
use wlt_traffic.Storage.Engine.{Engine, Session, Db, rollback}
use wlt_traffic.Storage.Repository.{upsert_checkpoint}
use wlt_traffic.Storage.Query.{get_checkpoint}
use wlt_traffic.Storage.Prune.{prune_daily}
use wlt_traffic.Ebpf.TrafficMap.{
  TrafficKey, TrafficCounter, BpfMap, MapIterator, iterate, next as next_entry,
}
use wlt_traffic.Runtime.Flush.{
  FlushLoop, kernel_map, record_key, raw_counters, flush_delta, is_idle, persist_all, on_repo,
}
use wlt_traffic.Runtime.Flush.Lifecycle.{start_flush}
use wlt_traffic.Http.Traffic.{TrafficRecord}
use wlt_traffic.Http.Server.{handle_traffic}
use wlt_traffic.Base.{List}

-- how far a call of `Flush` has come
pub data FlushPoint : Type 0 where
  -- before `iter.Next()`
  walking : GoString → MapIterator → FlushPoint
  -- before `GetCheckpoint`
  found : GoString → MapIterator → TrafficKey → TrafficCounter → FlushPoint
  -- before the write
  checked : GoString → MapIterator → TrafficKey → TrafficCounter → Option Checkpoint → FlushPoint
  returned : Result (Unit {0}) → FlushPoint

-- `Flush` up to its loop
unfoldable pub flush_begin : ℕ → FlushLoop → FlushPoint
flush_begin now f = elim (kernel_map f.traffic_map) [
  | none ↦ returned (ok tt)
  | some m ↦ walking (current_date_utc now) iterate
]

abbrev pub after_next :
    ℕ
    → GoString
    → FlushLoop
    → MapIterator × Option (TrafficKey × TrafficCounter)
    → FlushPoint × FlushLoop
after_next now today f (mi, none) =
    (returned (ok tt), record f { last_flush = some now; flush_err = none })
after_next now today f (mi, some (key, counter)) = (found today mi key counter, f)

abbrev pub after_read :
    (Option Checkpoint → FlushPoint)
    → Result (Option Checkpoint) × FlushLoop
    → FlushPoint × FlushLoop
after_read point (ok cp, f) = (point cp, f)
after_read point (err x, f) = (returned (err x), f)

abbrev pub after_write : FlushPoint → Result (Unit {0}) × FlushLoop → FlushPoint × FlushLoop
after_write point (ok _, f) = (point, f)
after_write point (err x, f) = (returned (err x), f)

module _ (e : Engine) where
  -- a round of the loop of `Flush`, from the checkpoint on
  unfoldable pub flush_write :
      GoString → TrafficKey → TrafficCounter → Option Checkpoint → Db (Unit {0})
  flush_write today key counter cp =
      let raw = raw_counters counter in
      let delta = flush_delta today cp raw in
      if is_idle delta
      then wrap updating_checkpoint (upsert_checkpoint e (record_key key) today raw)
      else wrap persisting (persist_all e (record_key key) today delta raw)

  -- the next call in `Flush`, with the map as the kernel has it and at the time `now`
  unfoldable pub flush_move : BpfMap → ℕ → FlushPoint → FlushLoop → FlushPoint × FlushLoop
  flush_move m now (walking today mi) f = after_next now today f (next_entry m mi)
  flush_move m now (found today mi key counter) f =
      after_read (checked today mi key counter)
        (on_repo (wrap getting_checkpoint (get_checkpoint e (record_key key))) f)
  flush_move m now (checked today mi key counter cp) f =
      after_write (walking today mi) (on_repo (flush_write today key counter cp) f)
  flush_move m now (returned r) f = (returned r, f)

-- `runLoop`
pub data LoopPoint : Type 0 where
  unstarted selecting : LoopPoint
  flushing : FlushPoint → LoopPoint
  -- `stoppedCh` is closed
  finished : LoopPoint

-- `Stop` of the flush loop; any further call returns at once
pub data StopPoint : Type 0 where
  uncalled waiting : StopPoint
  final : FlushPoint → StopPoint
  over : Result (Unit {0}) → StopPoint

-- `runOnce` of the housekeeping loop: between the computation of the cutoff and `PruneDaily`
pub data KeepPoint : Type 0 where
  resting : KeepPoint
  pruning : GoString → KeepPoint

pub record Process : Type 0 where
  pub now : ℕ
  pub flush_loop : FlushLoop
  pub loop : LoopPoint
  pub stop : StopPoint
  pub pruner : KeepPoint
  -- the context of `Start` is done
  pub cancelled : Bool

-- a process that has just made its flush loop
abbrev pub new_process : ℕ → FlushLoop → Process
new_process now f = record {
  now = now;
  flush_loop = f;
  loop = unstarted;
  stop = uncalled;
  pruner = resting;
  cancelled = false;
}

-- `runLoop` after a tick: a failed flush is kept for the status
unfoldable pub keep_error : Result (Unit {0}) → FlushLoop → FlushLoop
keep_error (ok _) f = f
keep_error (err x) f = record f { flush_err = some x }

-- `Start` returns an error, or starts the goroutine
unfoldable pub loop_started : Result (Unit {0}) → LoopPoint
loop_started (ok _) = selecting
loop_started (err x) = unstarted

-- `Stop`, up to its wait
unfoldable pub call_stop : Process → Process
call_stop p =
    if p.flush_loop.stopped
    then record p { stop = over (ok tt) }
    else record p { flush_loop = record p.flush_loop { stopped = true }; stop = waiting }

module _ (e : Engine) where
  unfoldable pub start_loop : Process → Process
  start_loop p =
      let (r, f) = start_flush e p.flush_loop in record p { flush_loop = f; loop = loop_started r }

  unfoldable pub move_loop : BpfMap → FlushPoint → Process → Process
  move_loop m point p =
      let (point', f) = flush_move e m p.now point p.flush_loop in
      record p { flush_loop = f; loop = flushing point' }

  unfoldable pub move_final : BpfMap → FlushPoint → Process → Process
  move_final m point p =
      let (point', f) = flush_move e m p.now point p.flush_loop in
      record p { flush_loop = f; stop = final point' }

  unfoldable pub prune : GoString → Process → Process
  prune cutoff p = record p {
    flush_loop = record p.flush_loop { repo = (prune_daily e cutoff p.flush_loop.repo).1 };
    pruner = resting;
  }

  unfoldable pub answer_traffic :
      (List TrafficRecord → List TrafficRecord) → ℕ → (GoString → GoString) → Process → Process
  answer_traffic order later get p = record p {
    flush_loop = record p.flush_loop {
      repo = (handle_traffic e order p.now later get p.flush_loop.repo).1;
    };
  }

-- One call of one goroutine. `runLoop` chooses freely where it can receive from two channels.
pub data Step (e : Engine) (p : Process) : Process → Type 0 where
  -- the flush loop
  started : p.loop ≡ unstarted → Step e p (start_loop e p)
  ticked :
      p.loop ≡ selecting → Step e p (record p { loop = flushing (flush_begin p.now p.flush_loop) })
  loop_moved :
      (m : BpfMap) (point : FlushPoint) → p.loop ≡ flushing point → Step e p (move_loop e m point p)
  tick_ended :
      (r : Result (Unit {0}))
      → p.loop ≡ flushing (returned r)
      → Step e p (record p { loop = selecting; flush_loop = keep_error r p.flush_loop })
  loop_ended :
      p.loop ≡ selecting
      → (p.flush_loop.stopped ≡ true) ⊎ (p.cancelled ≡ true)
      → Step e p (record p { loop = finished })
  cancel : Step e p (record p { cancelled = true })
  -- `Stop`
  stop_called : p.stop ≡ uncalled → Step e p (call_stop p)
  stop_gave_up : (x : Error) → p.stop ≡ waiting → Step e p (record p { stop = over (err x) })
  stop_woke :
      p.stop ≡ waiting
      → p.loop ≡ finished
      → Step e p (record p { stop = final (flush_begin p.now p.flush_loop) })
  final_moved :
      (m : BpfMap) (point : FlushPoint) → p.stop ≡ final point → Step e p (move_final e m point p)
  final_ended :
      (r : Result (Unit {0}))
      → p.stop ≡ final (returned r)
      → Step e p (record p { stop = over (staged final_flush r) })
  -- housekeeping, requests and time
  prune_began :
      p.pruner ≡ resting → Step e p (record p { pruner = pruning (prune_cutoff_date p.now) })
  pruned : (cutoff : GoString) → p.pruner ≡ pruning cutoff → Step e p (prune e cutoff p)
  answered :
      (order : List TrafficRecord → List TrafficRecord) (later : ℕ) (get : GoString → GoString)
      → Step e p (answer_traffic e order later get p)
  waited : (later : ℕ) → p.now ≤ later → Step e p (record p { now = later })

-- the steps of one process
pub data Run (e : Engine) (p : Process) : Process → Type 0 where
  here : Run e p p
  next : {q r : Process} → Run e p q → Step e q r → Run e p r

-- the life of a database: a process can end at any moment, and another one opens what it left
pub data Life (e : Engine) (s : Session) : Process → Type 0 where
  born : (now : ℕ) (f : FlushLoop) → f.repo ≡ s → Life e s (new_process now f)
  lived : {p q : Process} → Life e s p → Step e p q → Life e s q
  reborn :
      {p : Process} (f : FlushLoop)
      → Life e s p
      → f.repo ≡ rollback p.flush_loop.repo
      → Life e s (new_process p.now f)
