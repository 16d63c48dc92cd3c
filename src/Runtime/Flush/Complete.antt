-- ===== src/Runtime/Flush/Complete.antt =====
-- When a flush succeeds: the iterator reaches every entry, and no entry is refused.
use wlt_traffic.Base.{
  ℕ, zero, suc, ◌<◌, ◌≡◌, ◌≢◌, refl, sym, ap, subst, ◌∙◌, Option, none, some, List, [], ◌∷◌, arith,
  All, All-zip, length, inl, inr, Option-cases,
}
use wlt_traffic.Error.{Error, Result, ok, err}
use wlt_traffic.Exec.{proceed}
use wlt_traffic.Storage.Types.{GoString, CheckpointRow, GoString-discrete}
use wlt_traffic.Storage.Engine.{Engine, Session, Tables, IsReliable}
use wlt_traffic.Storage.Repository.Atomic.{upsert_checkpoint_ok}
use wlt_traffic.Storage.Query.{get_checkpoint}
use wlt_traffic.Ebpf.TrafficMap.{TrafficKey, BpfMap, MapIterator, next, lookup, next_key, walk}
use wlt_traffic.Runtime.Flush.{flush_entry, flush_map}
use wlt_traffic.Runtime.Flush.Delta.{Fits, NotAbove, delta-Fits, Fits-fits_int64}
use wlt_traffic.Runtime.Flush.Persist.{persist_all_ok}
use wlt_traffic.Runtime.Flush.Account.{Entry, entry_key, entry_raw, account, delta_in}
use wlt_traffic.Runtime.Flush.Rows.{
  checkpoint_row, checkpoint-account_ne, delta_in-first, delta_in-today, delta_in-new_day,
}
use wlt_traffic.Runtime.Flush.Refine.{flush_entry_atomic}
use wlt_traffic.Runtime.Flush.Repeat.{IsDistinct}

-- `m` answers a pass that goes on after the key `prev` with the entries `es`, and then with the
-- error at its end
abbrev pub Lists : BpfMap → Option TrafficKey → List Entry → Type 0
Lists m prev [] = (x : Error) × (next_key m prev ≡ err x)
Lists m prev (entry ∷ es) =
    (next_key m prev ≡ ok entry.0) × (lookup m entry.0 ≡ ok entry.1) × Lists m (some entry.0) es

module _ (m : BpfMap) (mi : MapIterator) where
  next-entry :
      (entry : Entry) (es : List Entry)
      → mi.iter_err ≡ none
      → Lists m mi.curr_key (entry ∷ es)
      → ((next m mi).1 ≡ some entry)
        × ((next m mi).0.iter_err ≡ none)
        × ((next m mi).0.curr_key ≡ some entry.0)
  unfolding next
  next-entry entry es h l =
      (ground (arith, l.0, l.1), ground (arith, l.0, l.1), ground (arith, l.0, l.1))

  next-rest :
      (entry : Entry) (es : List Entry)
      → mi.iter_err ≡ none
      → Lists m mi.curr_key (entry ∷ es)
      → Lists m (next m mi).0.curr_key es
  next-rest entry es h l = subst (λ k. Lists m k es) (sym (next-entry entry es h l).2) l.2

  next-end : mi.iter_err ≡ none → Lists m mi.curr_key [] → (next m mi).1 ≡ none
  unfolding next
  next-end h l = ground (arith, l.1)

-- The iterator returns exactly the entries that the map lists.
pub walk-Lists :
    (m : BpfMap) (es : List Entry) (fuel : ℕ) (mi : MapIterator)
    → mi.iter_err ≡ none
    → Lists m mi.curr_key es
    → length es < fuel
    → walk m fuel mi ≡ es
unfolding walk
walk-Lists m es zero mi h l lt = absurd (omega arith)
walk-Lists m [] (suc fuel) mi h l lt = rw (next-end m mi h l, walk) refl
walk-Lists m (entry ∷ es) (suc fuel) mi h l lt =
    let (got, live, moved) = next-entry m mi entry es h l in
    rw (got, walk)
      (ap (λ r. entry ∷ r)
        (walk-Lists m es fuel (next m mi).0 live (next-rest m mi entry es h l) (omega arith)))

-- the checkpoint of the entry, if it is of today, is not ahead of the entry's counters
pub record NotBehind (today : GoString) (t : Tables) (entry : Entry) : Type 0 where
  pub caught_up :
      (row : CheckpointRow)
      → checkpoint_row t (entry_key entry) ≡ some row
      → row.date_utc ≡ today
      → NotAbove row.last (entry_raw entry)

-- what the entries of a pass need
pub record Accepted (today : GoString) (t : Tables) (es : List Entry) : Type 0 where
  pub fit : All (λ entry. Fits (entry_raw entry)) es
  pub distinct : IsDistinct es
  pub not_behind : All (NotBehind today t) es

module _ (e : Engine) (today : GoString) where
  delta_in-Fits :
      (t : Tables) (entry : Entry)
      → Fits (entry_raw entry)
      → NotBehind today t entry
      → Fits (delta_in e today t entry)
  delta_in-Fits t entry p n = elim (Option-cases (checkpoint_row t (entry_key entry))) [
    | inl first ↦ subst Fits (sym (delta_in-first e today t entry first)) p
    | inr (row, found) ↦ elim (GoString-discrete row.date_utc today) [
      | yes q ↦
          subst Fits (sym (delta_in-today e today t entry row found q))
            (delta-Fits (entry_raw entry) row.last p (n.caught_up row found q))
      | no q ↦ subst Fits (sym (delta_in-new_day e today t entry row found q)) p
    ]
  ]

  -- Without faults an entry is flushed if its counters are int64 values and not behind its
  -- checkpoint.
  pub flush_entry_ok :
      (entry : Entry) (s : Session)
      → IsReliable e
      → Fits (entry_raw entry)
      → NotBehind today s.committed entry
      → (flush_entry e today entry.0 entry.1 s).0 ≡ ok tt
  unfolding flush_entry get_checkpoint
  flush_entry_ok entry s r p n =
      let s₁ : Session = record s { calls = suc s.calls } in
      let delta = delta_in e today s.committed entry in
      let raw_fits = Fits-fits_int64 _ p in
      let delta_fits = Fits-fits_int64 _ (delta_in-Fits s.committed entry p n) in
      ground (
        arith,
        r.no_fault s.calls,
        persist_all_ok e (entry_key entry) today delta (entry_raw entry) s₁ r raw_fits delta_fits,
        upsert_checkpoint_ok e (entry_key entry) today (entry_raw entry) s₁ r raw_fits,
      )

  committed-flush_entry :
      (entry : Entry) (s : Session)
      → (flush_entry e today entry.0 entry.1 s).0 ≡ ok tt
      → (flush_entry e today entry.0 entry.1 s).1.committed ≡ account e today entry s.committed
  committed-flush_entry entry s good =
      ground (arith, (flush_entry_atomic e today entry.0 entry.1 s).0)

  account-NotBehind :
      (t : Tables) (entry other : Entry)
      → entry_key other ≢ entry_key entry
      → NotBehind today t other
      → NotBehind today (account e today entry t) other
  account-NotBehind t entry other d n = record {
    caught_up = λ row f.
        n.caught_up row
          (sym (checkpoint-account_ne e today entry t (entry_key other) (λ q. d (sym q))) ∙ f);
  }

  account-Accepted :
      (t : Tables) (entry : Entry) (es : List Entry)
      → Accepted today t (entry ∷ es)
      → Accepted today (account e today entry t) es
  account-Accepted t entry es a = record {
    fit = a.fit.1;
    distinct = a.distinct.1;
    not_behind =
        All-zip (λ other. entry_key other ≢ entry_key entry) (NotBehind today t)
          (NotBehind today (account e today entry t)) (account-NotBehind t entry) es a.distinct.0
          a.not_behind.1;
  }

  flush_map_round_ok :
      (k : Session → Result (Unit {0}) × Session) (x : Result (Unit {0}) × Session)
      → x.0 ≡ ok tt
      → (k x.1).0 ≡ ok tt
      → (proceed x (λ _. k)).0 ≡ ok tt
  flush_map_round_ok k (ok _, s) p h = h
  flush_map_round_ok k (err y, s) p h = cc

  -- Without faults a pass over the map succeeds if its entries can be flushed.
  pub flush_map_ok :
      (m : BpfMap) (es : List Entry) (fuel : ℕ) (mi : MapIterator) (s : Session)
      → IsReliable e
      → mi.iter_err ≡ none
      → Lists m mi.curr_key es
      → length es < fuel
      → Accepted today s.committed es
      → (flush_map e fuel today m mi s).0 ≡ ok tt
  unfolding flush_map
  flush_map_ok m es zero mi s r h l lt a = absurd (omega arith)
  flush_map_ok m [] (suc fuel) mi s r h l lt a = rw (next-end m mi h l, flush_map) refl
  flush_map_ok m (entry ∷ es) (suc fuel) mi s r h l lt a =
      let good = flush_entry_ok entry s r a.fit.0 a.not_behind.0 in
      let (got, live, moved) = next-entry m mi entry es h l in
      let mi' = (next m mi).0 in
      let s' = (flush_entry e today entry.0 entry.1 s).1 in
      rw (got, flush_map)
        (flush_map_round_ok (flush_map e fuel today m mi') (flush_entry e today entry.0 entry.1 s)
          good
          (flush_map_ok m es fuel mi' s' r live (next-rest m mi entry es h l) (omega arith) (
            subst (λ t. Accepted today t es) (sym (committed-flush_entry entry s good))
              (account-Accepted s.committed entry es a))))
