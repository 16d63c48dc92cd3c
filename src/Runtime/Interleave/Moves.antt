-- ===== src/Runtime/Interleave/Moves.antt =====
-- `Flush` and `Stop`, call by call with no other goroutine in between, do what they do as a whole.
use wlt_traffic.Base.{
  ℕ, zero, suc, ◌≡◌, ◌≢◌, refl, sym, ap, subst, ◌∙◌, Option, none, some, inl, inr, Option-cases,
}
use wlt_traffic.Error.{Result, ok, err, out_of_fuel, getting_checkpoint}
use wlt_traffic.Exec.{wrap, proceed}
use wlt_traffic.Calendar.{current_date_utc}
use wlt_traffic.Storage.Types.{GoString, Checkpoint}
use wlt_traffic.Storage.Engine.{Engine, Session}
use wlt_traffic.Storage.Query.{get_checkpoint}
use wlt_traffic.Ebpf.TrafficMap.{
  TrafficKey, TrafficCounter, BpfMap, MapIterator, iterate, next as next_entry,
}
use wlt_traffic.Runtime.Flush.{
  FlushLoop, flush_entry, flush_map, flush_end, flush, on_repo, kernel_map, record_key,
}
use wlt_traffic.Runtime.Flush.Correct.{flush-pass, flush_result}
use wlt_traffic.Runtime.Interleave.{
  FlushPoint, walking, checked, returned, flush_write, flush_move, flush_begin, after_read,
  after_write, after_next,
}

module _ (e : Engine) (m : BpfMap) (now : ℕ) where
  -- so many calls of one flush
  unfoldable pub moves : ℕ → FlushPoint × FlushLoop → FlushPoint × FlushLoop
  moves zero x = x
  moves (suc n) x = moves n (flush_move e m now x.0 x.1)

  -- the flush returns
  pub record Returns (x : FlushPoint × FlushLoop) (y : Result (Unit {0}) × FlushLoop) : Type 0 where
    pub count : ℕ
    pub ended : moves count x ≡ (returned y.0, y.1)

  moved-Returns :
      (x z : FlushPoint × FlushLoop) (y : Result (Unit {0}) × FlushLoop)
      → flush_move e m now x.0 x.1 ≡ z
      → Returns z y
      → Returns x y
  unfolding moves
  moved-Returns x z y h r = record { count = suc r.count; ended = ap (moves r.count) h ∙ r.ended }

  module _ (today : GoString) (mi : MapIterator) (fuel : ℕ) where
    abbrev rest : Session → Result (Unit {0}) × Session
    rest = flush_map e fuel today m mi

    abbrev RestReturns : FlushLoop → Type 0
    RestReturns f =
        (s : Session)
        → (rest s).0 ≢ err out_of_fuel
        → Returns (walking today mi, record f { repo = s })
            (flush_end now (on_repo rest (record f { repo = s })))

    written-Returns :
        (f : FlushLoop)
        → RestReturns f
        → (x : Result (Unit {0}) × Session) → (proceed x (λ _. rest)).0 ≢ err out_of_fuel
        → Returns
            (after_write (walking today mi) (on_repo (λ s. x) f))
            (flush_end now (on_repo (λ s. proceed x (λ _. rest)) f))
    unfolding flush_end moves
    written-Returns f ih (ok _, s) h = ih s h
    written-Returns f ih (err y, s) h = record { count = 0; ended = refl }

    read-Returns :
        (f : FlushLoop) (key : TrafficKey) (counter : TrafficCounter)
        → RestReturns f
        → (x : Result (Option Checkpoint) × Session)
        → (proceed (proceed x (flush_write e today key counter)) (λ _. rest)).0 ≢ err out_of_fuel
        → Returns (after_read (checked today mi key counter) (on_repo (λ s. x) f)) (
            flush_end now
              (on_repo (λ s. proceed (proceed x (flush_write e today key counter)) (λ _. rest)) f))
    unfolding flush_end moves flush_move
    read-Returns f key counter ih (ok cp, s) h =
        moved-Returns _ _ _ refl
          (written-Returns (record f { repo = s }) ih (flush_write e today key counter cp s) h)
    read-Returns f key counter ih (err y, s) h = record { count = 0; ended = refl }

  flush_entry_parts :
      (today : GoString) (key : TrafficKey) (counter : TrafficCounter) (s : Session)
      → flush_entry e today key counter s
        ≡ proceed
            (wrap getting_checkpoint (get_checkpoint e (record_key key)) s)
            (flush_write e today key counter)
  unfolding flush_entry flush_write
  flush_entry_parts today key counter s = refl

  -- the rounds that follow the iterator's answer_traffic
  abbrev pass :
      GoString
      → ℕ
      → MapIterator × Option (TrafficKey × TrafficCounter)
      → Session
      → Result (Unit {0}) × Session
  pass today fuel (mi, none) s = (ok tt, s)
  pass today fuel (mi, some (key, counter)) s =
      proceed
        (proceed (wrap getting_checkpoint (get_checkpoint e (record_key key)) s)
          (flush_write e today key counter))
        (λ _. flush_map e fuel today m mi)

  pass-Returns :
      (today : GoString) (fuel : ℕ) (f : FlushLoop)
      → ((mi : MapIterator) → RestReturns today mi fuel f)
      → (x : MapIterator × Option (TrafficKey × TrafficCounter))
      → (pass today fuel x f.repo).0 ≢ err out_of_fuel
      → Returns (after_next now today f x) (flush_end now (on_repo (pass today fuel x) f))
  unfolding flush_end moves flush_move
  pass-Returns today fuel f ih (mi, none) h = record { count = 0; ended = refl }
  pass-Returns today fuel f ih (mi, some (key, counter)) h = moved-Returns _ _ _ refl (
      read-Returns today mi fuel f key counter (ih mi)
        (wrap getting_checkpoint (get_checkpoint e (record_key key)) f.repo) h)

  flush_map-pass :
      (today : GoString) (fuel : ℕ) (mi : MapIterator) (s : Session)
      → flush_map e (suc fuel) today m mi s ≡ pass today fuel (next_entry m mi) s
  unfolding flush_map flush_entry flush_write
  flush_map-pass today fuel mi s = elim (Option-cases (next_entry m mi).1) [
    | inl last ↦ rw (last, flush_map) refl
    | inr (entry, more) ↦ rw (more, flush_map) refl
  ]

  flush_map-Returns :
      (today : GoString) (fuel : ℕ) (mi : MapIterator) (f : FlushLoop)
      → (flush_map e fuel today m mi f.repo).0 ≢ err out_of_fuel
      → Returns (walking today mi, f) (flush_end now (on_repo (flush_map e fuel today m mi) f))
  unfolding flush_move
  flush_map-Returns today zero mi f h = absurd (h (unfold flush_map in refl))
  flush_map-Returns today (suc fuel) mi f h =
      let same = flush_map-pass today fuel mi f.repo in
      moved-Returns _ _ _ refl (
        subst
          (λ z.
            Returns (after_next now today f (next_entry m mi))
              (flush_end now (z.0, record f { repo = z.1 })))
          (sym same)
          (pass-Returns today fuel f
            (λ mi' s. flush_map-Returns today fuel mi' (record f { repo = s })) (next_entry m mi)
            (λ q. h (ap (λ z. z.0) same ∙ q))))

  -- Whenever a flush does not run out of fuel: its calls, one after the other, lead to its result.
  pub flush-Returns :
      (fuel : ℕ) (f : FlushLoop)
      → kernel_map f.traffic_map ≡ some m
      → (flush e fuel now now f).0 ≢ err out_of_fuel
      → Returns (flush_begin now f, f) (flush e fuel now now f)
  unfolding flush_begin
  flush-Returns fuel f real h =
      let r =
        flush_map-Returns (current_date_utc now) fuel iterate f
          (λ q. h (flush_result e fuel now now f m real ∙ q)) in
      rw (flush-pass e fuel now now f m real, real, flush_begin) r
