-- ===== src/Runtime/Flush/Invariant.antt =====
-- The invariant `IsSynced` across `Flush`, whatever fails in it, and across the days.
use wlt_traffic.Base.{ℕ, zero, suc, ◌≡◌, refl, true, arith, inl, inr, Option-cases, sym, subst}
use wlt_traffic.Error.{Result, ok, err, on_ok}
use wlt_traffic.Exec.{proceed}
use wlt_traffic.Calendar.{current_date_utc}
use wlt_traffic.Storage.Types.{GoString}
use wlt_traffic.Storage.Engine.{Engine, Session, IsExact, fits_int64}
use wlt_traffic.Storage.Repository.Atomic.{upsert_checkpoint_fits}
use wlt_traffic.Storage.Query.{get_checkpoint}
use wlt_traffic.Ebpf.TrafficMap.{TrafficKey, TrafficCounter, BpfMap, MapIterator, iterate, next}
use wlt_traffic.Runtime.Flush.{
  flush_entry, flush_map, flush, flush_end, on_repo, kernel_map, FlushLoop,
}
use wlt_traffic.Runtime.Flush.Delta.{fits_int64-Fits}
use wlt_traffic.Runtime.Flush.Persist.{persist_all_fits}
use wlt_traffic.Runtime.Flush.Account.{Entry, entry_key, entry_raw, account, delta_in}
use wlt_traffic.Runtime.Flush.Refine.{flush_entry_atomic}
use wlt_traffic.Runtime.Flush.Synced.{IsSynced, account-IsSynced}

-- A write of an entry that is all or nothing, and refuses what is no int64, keeps the invariant.
pub written-IsSynced :
    (e : Engine) (today : GoString) (entry : Entry) (s : Session)
    → IsExact e
    → IsSynced today s.committed
    → (x : Result (Unit {0}) × Session)
    → x.1.committed ≡ on_ok x.0 (account e today entry s.committed) s.committed
    → (x.0 ≡ ok tt
        → (fits_int64 (entry_raw entry) ≡ true)
          × (fits_int64 (delta_in e today s.committed entry) ≡ true))
    → IsSynced today x.1.committed
written-IsSynced e today entry s x h (ok _, s') fact fit =
    let (p, q) = fit refl in
    subst (IsSynced today) (sym fact)
      (account-IsSynced e x today s.committed entry h (fits_int64-Fits _ p) (fits_int64-Fits _ q))
written-IsSynced e today entry s x h (err y, s') fact fit = subst (IsSynced today) (sym fact) h

module _ (e : Engine) (today : GoString) (key : TrafficKey) (counter : TrafficCounter)
    (s : Session) where
  abbrev entry : Entry
  entry = (key, counter)

  -- an entry that was flushed had counters and a delta of int64 values
  pub flush_entry_fits :
      (flush_entry e today key counter s).0 ≡ ok tt
      → (fits_int64 (entry_raw entry) ≡ true)
        × (fits_int64 (delta_in e today s.committed entry) ≡ true)
  unfolding flush_entry get_checkpoint
  flush_entry_fits h =
      let s₁ : Session = record s { calls = suc s.calls } in
      let delta = delta_in e today s.committed entry in
      ground (
        arith,
        persist_all_fits e (entry_key entry) today delta (entry_raw entry) s₁,
        upsert_checkpoint_fits e (entry_key entry) today (entry_raw entry) s₁,
      )

  pub flush_entry-IsSynced :
      IsExact e
      → IsSynced today s.committed
      → IsSynced today (flush_entry e today key counter s).1.committed
  flush_entry-IsSynced x h =
      written-IsSynced e today entry s x h (flush_entry e today key counter s)
        (flush_entry_atomic e today key counter s).0 flush_entry_fits

-- A property of the session that every entry keeps, the whole pass keeps.
module _ (e : Engine) (today : GoString) (m : BpfMap) (P : Session → Type 0)
    (keep : (key : TrafficKey) (counter : TrafficCounter) (s : Session)
      → P s
      → P (flush_entry e today key counter s).1) where
  flush_map_round-keeps :
      (fuel : ℕ) (mi : MapIterator)
      → ((s : Session) → P s → P (flush_map e fuel today m mi s).1)
      → (x : Result (Unit {0}) × Session) → P x.1
      → P (proceed x (λ _. flush_map e fuel today m mi)).1
  flush_map_round-keeps fuel mi ih (ok _, s) h = ih s h
  flush_map_round-keeps fuel mi ih (err _, s) h = h

  pub flush_map-keeps :
      (fuel : ℕ) (mi : MapIterator) (s : Session) → P s → P (flush_map e fuel today m mi s).1
  unfolding flush_map
  flush_map-keeps zero mi s h = h
  flush_map-keeps (suc fuel) mi s h = elim (Option-cases (next m mi).1) [
    | inl last ↦ rw (last, flush_map) h
    | inr ((key, counter), more) ↦
        rw (more, flush_map)
          (flush_map_round-keeps fuel (next m mi).0 (flush_map-keeps fuel (next m mi).0)
            (flush_entry e today key counter s) (keep key counter s h))
  ]

-- What a pass over the map keeps of the session, `Flush` keeps.
flush_end-keeps :
    (P : Session → Type 0) (finished : ℕ) (f : FlushLoop) (x : Result (Unit {0}) × Session)
    → P x.1
    → P (flush_end finished (on_repo (λ _. x) f)).1.repo
unfolding flush_end
flush_end-keeps P finished f (ok _, s) h = h
flush_end-keeps P finished f (err _, s) h = h

pub flush-keeps :
    (e : Engine) (fuel started finished : ℕ) (f : FlushLoop) (P : Session → Type 0)
    → ((key : TrafficKey) (counter : TrafficCounter) (s : Session)
        → P s
        → P (flush_entry e (current_date_utc started) key counter s).1)
    → P f.repo
    → P (flush e fuel started finished f).1.repo
unfolding flush
flush-keeps e fuel started finished f P keep h = elim (Option-cases (kernel_map f.traffic_map)) [
  | inl mock ↦ rw (mock, flush) h
  | inr (m, real) ↦
      rw (real, flush)
        (flush_end-keeps P finished f (flush_map e fuel (current_date_utc started) m iterate f.repo)
          (flush_map-keeps e (current_date_utc started) m P keep fuel iterate f.repo h))
]

-- Whatever fails in it, a flush keeps the invariant of its day.
pub flush-IsSynced :
    (e : Engine) (fuel started finished : ℕ) (f : FlushLoop)
    → IsExact e
    → IsSynced (current_date_utc started) f.repo.committed
    → IsSynced (current_date_utc started) (flush e fuel started finished f).1.repo.committed
flush-IsSynced e fuel started finished f x =
    flush-keeps e fuel started finished f (λ s. IsSynced (current_date_utc started) s.committed)
      (λ key counter s. flush_entry-IsSynced e (current_date_utc started) key counter s x)
