-- ===== src/Runtime/Flush/Correct.antt =====
-- What `Flush` as a whole does to the database and to the loop's status.
use wlt_traffic.Base.{
  ℕ, ◌<◌, ◌≡◌, refl, sym, ap, subst, ◌∙◌, none, some, List, ◌++◌, arith, All, All-map, All-append,
  length,
}
use mathlib.Core.List.{append-nil}
use wlt_traffic.Error.{Result, ok, on_ok}
use wlt_traffic.Calendar.{current_date_utc}
use wlt_traffic.Storage.Engine.{Engine, Session, IsReliable, IsExact}
use wlt_traffic.Ebpf.TrafficMap.{BpfMap, iterate, walk}
use wlt_traffic.Runtime.Flush.{FlushLoop, flush, flush_map, flush_end, kernel_map}
use wlt_traffic.Runtime.Flush.Account.{Entry, entry_key, entry_raw, account_all}
use wlt_traffic.Runtime.Flush.Rows.{checkpoint_row, daily_row}
use wlt_traffic.Runtime.Flush.Refine.{Prefix, flush_map_prefix}
use wlt_traffic.Runtime.Flush.Synced.{IsSynced, counters_of}
use wlt_traffic.Runtime.Flush.Invariant.{flush-IsSynced}
use wlt_traffic.Runtime.Flush.Repeat.{
  IsDistinct, IsSeen, SameCounts, account_all-seen, checkpoint-account_all, row_of,
}
use wlt_traffic.Runtime.Flush.Complete.{Lists, Accepted, walk-Lists, flush_map_ok}

-- the parts of a flush that reads the kernel's map `m`
module _ (e : Engine) (fuel started finished : ℕ) (f : FlushLoop) (m : BpfMap)
    (real : kernel_map f.traffic_map ≡ some m) where
  abbrev pass : Result (Unit {0}) × Session
  pass = flush_map e fuel (current_date_utc started) m iterate f.repo

  pub flush-pass :
      flush e fuel started finished f ≡ flush_end finished (pass.0, record f { repo = pass.1 })
  unfolding flush
  flush-pass = rw (real, flush) refl

  pub flush_result : (flush e fuel started finished f).0 ≡ pass.0
  unfolding flush_end
  flush_result = rw flush-pass (ground arith)

  flush_repo : (flush e fuel started finished f).1.repo ≡ pass.1
  unfolding flush_end
  flush_repo = rw flush-pass (ground arith)

  -- With a map and no open transaction, whatever the engine does: the database holds the entries of a prefix of the iterator's, each
  -- accounted for completely, no transaction is left open, and with no error it holds them all.
  pub flush_prefix :
      f.repo.pending ≡ none
      → let (r, g) = flush e fuel started finished f in
        Prefix e (current_date_utc started) m iterate fuel f.repo g.repo r
  flush_prefix shut =
      rw (flush_result, flush_repo)
        (flush_map_prefix e (current_date_utc started) fuel m iterate f.repo shut)

  -- With a map: a success is noted with its time and clears the error; a failure leaves both as they were.
  pub flush_status :
      let (r, g) = flush e fuel started finished f in
      (g.last_flush ≡ on_ok r (some finished) f.last_flush)
      × (g.flush_err ≡ on_ok r none f.flush_err)
  unfolding flush_end
  flush_status = rw flush-pass (ground arith)

  -- A successful flush has accounted for every entry that the iterator returns.
  pub flush_accounts :
      f.repo.pending ≡ none
      → (flush e fuel started finished f).0 ≡ ok tt
      → (flush e fuel started finished f).1.repo.committed
        ≡ account_all e (current_date_utc started) (walk m fuel iterate) f.repo.committed
  flush_accounts shut good =
      let p = flush_prefix shut in
      let all : walk m fuel iterate ≡ p.done = p.split ∙ rw (p.complete good) (append-nil _) in
      p.accounted
      ∙ ap (λ es. account_all e (current_date_utc started) es f.repo.committed) (sym all)

  module _ (es : List Entry) (listed : Lists m none es) (enough : length es < fuel) where
    walked : walk m fuel iterate ≡ es
    unfolding iterate
    walked = walk-Lists m es fuel iterate refl listed enough

    -- With no faults, fuel for one round more than there are entries, and entries that the
    -- database accepts, the flush succeeds and has accounted for exactly those entries.
    pub flush_total :
        IsReliable e
        → f.repo.pending ≡ none
        → Accepted (current_date_utc started) f.repo.committed es
        → let (r, g) = flush e fuel started finished f in
          (r ≡ ok tt)
          × (g.repo.committed ≡ account_all e (current_date_utc started) es f.repo.committed)
          × (g.last_flush ≡ some finished)
          × (g.flush_err ≡ none)
    flush_total r shut a =
        let good : (flush e fuel started finished f).0 ≡ ok tt =
          flush_result
          ∙ unfold iterate in
            flush_map_ok e (current_date_utc started) m es fuel iterate f.repo r refl listed enough
              a in
        (
          good,
          flush_accounts shut good
              ∙ ap (λ l. account_all e (current_date_utc started) l f.repo.committed) walked,
          ground (arith, flush_status.0, good),
          ground (arith, flush_status.1, good),
        )

    -- After a successful flush of distinct entries from a synchronised database, with exact sums, the
    -- bucket of today of every entry holds its raw counters.
    pub flush_buckets :
        IsExact e
        → f.repo.pending ≡ none
        → IsSynced (current_date_utc started) f.repo.committed
        → IsDistinct es
        → (flush e fuel started finished f).0 ≡ ok tt
        → All
            (λ entry.
              counters_of (
                daily_row
                  (flush e fuel started finished f).1.repo.committed
                  (entry_key entry)
                  (current_date_utc started))
              ≡ entry_raw entry)
            es
    flush_buckets x shut h d good =
        let after =
          flush_accounts shut good
          ∙ ap (λ l. account_all e (current_date_utc started) l f.repo.committed) walked in
        let synced = flush-IsSynced e fuel started finished f x h in
        All-map
          (λ entry.
            checkpoint_row (flush e fuel started finished f).1.repo.committed (entry_key entry)
            ≡ some (row_of (current_date_utc started) entry))
          (λ entry.
            counters_of (
              daily_row (flush e fuel started finished f).1.repo.committed (entry_key entry)
                (current_date_utc started))
            ≡ entry_raw entry)
          (λ entry found.
            (synced.at (entry_key entry)).same (row_of (current_date_utc started) entry) found refl)
          es
          (subst
            (λ t.
              All
                (λ entry.
                  checkpoint_row t (entry_key entry)
                  ≡ some (row_of (current_date_utc started) entry))
                es)
            (sym after) (checkpoint-account_all e (current_date_utc started) es f.repo.committed d))

    -- and each of them is seen.
    flush-IsSeen :
        IsExact e
        → f.repo.pending ≡ none
        → IsSynced (current_date_utc started) f.repo.committed
        → IsDistinct es
        → (flush e fuel started finished f).0 ≡ ok tt
        → All
            (IsSeen (current_date_utc started) (flush e fuel started finished f).1.repo.committed)
            es
    flush-IsSeen x shut h d good =
        let after =
          flush_accounts shut good
          ∙ ap (λ l. account_all e (current_date_utc started) l f.repo.committed) walked in
        let synced = flush-IsSynced e fuel started finished f x h in
        All-map
          (λ entry.
            checkpoint_row (flush e fuel started finished f).1.repo.committed (entry_key entry)
            ≡ some (row_of (current_date_utc started) entry))
          (IsSeen (current_date_utc started) (flush e fuel started finished f).1.repo.committed)
          (λ entry found. record {
            row = found;
            fits =
                (synced.at (entry_key entry)).fits (row_of (current_date_utc started) entry) found;
          })
          es
          (subst
            (λ t.
              All
                (λ entry.
                  checkpoint_row t (entry_key entry)
                  ≡ some (row_of (current_date_utc started) entry))
                es)
            (sym after) (checkpoint-account_all e (current_date_utc started) es f.repo.committed d))

  flush_traffic_map : (flush e fuel started finished f).1.traffic_map ≡ f.traffic_map
  unfolding flush_end
  flush_traffic_map = rw flush-pass (ground arith)

-- From a synchronised database, for distinct entries and exact sums: a flush after a successful one
-- on the same day, of a map that answers as before, changes no total and no daily bucket, even if
-- it fails half way.
pub flush_idempotent :
    (e : Engine) (fuel started finished started' finished' : ℕ) (f : FlushLoop) (m : BpfMap)
    (es : List Entry)
    → kernel_map f.traffic_map ≡ some m
    → Lists m none es
    → length es < fuel
    → IsDistinct es
    → IsExact e
    → f.repo.pending ≡ none
    → IsSynced (current_date_utc started) f.repo.committed
    → (flush e fuel started finished f).0 ≡ ok tt
    → current_date_utc started' ≡ current_date_utc started
    → let g = (flush e fuel started finished f).1 in
      SameCounts g.repo.committed (flush e fuel started' finished' g).1.repo.committed
flush_idempotent e fuel started finished started' finished' f m es real listed enough d x shut h
      good day =
    let g = (flush e fuel started finished f).1 in
    let real' : kernel_map g.traffic_map ≡ some m =
      ap kernel_map (flush_traffic_map e fuel started finished f m real) ∙ real in
    let closed = (flush_prefix e fuel started finished f m real shut).closed in
    let again = flush_prefix e fuel started' finished' g m real' closed in
    let seen = flush-IsSeen e fuel started finished f m real es listed enough x shut h d good in
    let split : es ≡ again.done ++ again.rest =
      sym (walked e fuel started' finished' g m real' es listed enough) ∙ again.split in
    let seen_again = subst (λ d. All (IsSeen d g.repo.committed) es) (sym day) seen in
    let seen_done =
      All-append (IsSeen (current_date_utc started') g.repo.committed) again.done again.rest
        (subst (All (IsSeen (current_date_utc started') g.repo.committed)) split seen_again) in
    subst (SameCounts g.repo.committed) (sym again.accounted)
      (account_all-seen e (current_date_utc started') again.done g.repo.committed seen_done.0)
