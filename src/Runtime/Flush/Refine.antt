-- ===== src/Runtime/Flush/Refine.antt =====
-- `Flush` refines the abstract accounting: whatever the engine does, a flush has accounted for a
-- prefix of the kernel's entries, and for all of them if it returns no error.
use wlt_traffic.Base.{
  ℕ, zero, suc, ◌≡◌, refl, none, some, List, [], ◌∷◌, ◌++◌, arith, inl, inr, Option-cases, ap,
}
use wlt_traffic.Error.{Result, ok, err, on_ok}
use wlt_traffic.Exec.{proceed}
use wlt_traffic.Storage.Types.{GoString}
use wlt_traffic.Storage.Engine.{Engine, Session}
use wlt_traffic.Storage.Repository.Atomic.{upsert_checkpoint_atomic}
use wlt_traffic.Storage.Query.{get_checkpoint}
use wlt_traffic.Ebpf.TrafficMap.{TrafficKey, TrafficCounter, BpfMap, MapIterator, next, walk}
use wlt_traffic.Runtime.Flush.{flush_entry, flush_map, record_key, raw_counters}
use wlt_traffic.Runtime.Flush.Persist.{persist_all_atomic}
use wlt_traffic.Runtime.Flush.Account.{Entry, account, account_all, delta_in}

module _ (e : Engine) (today : GoString) where
  pub flush_entry_atomic :
      (key : TrafficKey) (counter : TrafficCounter) (s : Session)
      → let (r, s') = flush_entry e today key counter s in
        (s'.committed ≡ on_ok r (account e today (key, counter) s.committed) s.committed)
        × (s.pending ≡ none → s'.pending ≡ none)
  unfolding flush_entry account get_checkpoint
  flush_entry_atomic key counter s =
      let k = record_key key in
      let raw = raw_counters counter in
      let delta = delta_in e today s.committed (key, counter) in
      let s₁ : Session = record s { calls = suc s.calls } in
      ground (
        arith,
        persist_all_atomic e k today delta raw s₁,
        upsert_checkpoint_atomic e k today raw s₁,
      )

  -- how far a pass over the map has come, and what it has written
  pub record Prefix (m : BpfMap) (mi : MapIterator) (fuel : ℕ) (s s' : Session)
      (r : Result (Unit {0})) : Type 0 where
    pub done : List Entry
    pub rest : List Entry
    pub split : walk m fuel mi ≡ done ++ rest
    pub accounted : s'.committed ≡ account_all e today done s.committed
    pub closed : s'.pending ≡ none
    pub complete : r ≡ ok tt → rest ≡ []

  -- one round of the loop, before the rounds that follow it
  flush_map_round :
      (fuel : ℕ) (m : BpfMap) (mi : MapIterator) (entry : Entry) (s : Session)
      → (next m mi).1 ≡ some entry
      → s.pending ≡ none
      → ((s₁ : Session)
          → s₁.pending ≡ none
          → let (r, s') = flush_map e fuel today m (next m mi).0 s₁ in
            Prefix m (next m mi).0 fuel s₁ s' r)
      → (x : Result (Unit {0}) × Session) → flush_entry e today entry.0 entry.1 s ≡ x
      → let (r, s') = proceed x (λ _. flush_map e fuel today m (next m mi).0) in
        Prefix m mi (suc fuel) s s' r
  unfolding walk account_all
  flush_map_round fuel m mi entry s n h ih (ok _, s₁) p =
      let (fact, shut) = flush_entry_atomic entry.0 entry.1 s in
      let later = ih s₁ (ground (arith, shut h)) in
      record {
        done = entry ∷ later.done;
        rest = later.rest;
        split = rw (n, walk) (ap (λ (l : List Entry). entry ∷ l) later.split);
        accounted = ground (arith, later.accounted, fact);
        closed = later.closed;
        complete = later.complete;
      }
  flush_map_round fuel m mi entry s n h ih (err x, s₁) p =
      let (fact, shut) = flush_entry_atomic entry.0 entry.1 s in
      record {
        done = [];
        rest = walk m (suc fuel) mi;
        split = refl;
        accounted = ground (arith, fact);
        closed = ground (arith, shut h);
        complete = λ q. cc;
      }

  pub flush_map_prefix :
      (fuel : ℕ) (m : BpfMap) (mi : MapIterator) (s : Session)
      → s.pending ≡ none
      → let (r, s') = flush_map e fuel today m mi s in Prefix m mi fuel s s' r
  unfolding flush_map walk account_all
  flush_map_prefix zero m mi s h = record {
    done = [];
    rest = [];
    split = refl;
    accounted = refl;
    closed = h;
    complete = λ p. refl;
  }
  flush_map_prefix (suc fuel) m mi s h = elim (Option-cases (next m mi).1) [
    | inl last ↦
        rw (last, flush_map)
          (record {
            done = [];
            rest = [];
            split = rw (last, walk) refl;
            accounted = refl;
            closed = h;
            complete = λ p. refl;
          })
    | inr (entry, more) ↦
        rw (more, flush_map)
          (flush_map_round fuel m mi entry s more h
            (λ s₁ shut. flush_map_prefix fuel m (next m mi).0 s₁ shut)
            (flush_entry e today entry.0 entry.1 s) refl)
  ]
