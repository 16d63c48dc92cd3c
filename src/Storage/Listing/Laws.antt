-- ===== src/Storage/Listing/Laws.antt =====
-- The lists are the selected rows, in order, and reading changes nothing.
use wlt_traffic.Base.{◌≡◌, refl, ap, ◌⊎◌, Bool, true, List, [], ◌∷◌, map, All, arith, suc}
use wlt_traffic.Base.Sort.{IsOrdered, keep, sort_by, sort_by-IsOrdered}
use wlt_traffic.Error.{
  listing_checkpoints, scanning_checkpoint, iterating_checkpoint_rows, Stage, listing_totals,
  scanning_total_record, iterating_total_rows, listing_daily_records, scanning_daily_record,
  iterating_daily_rows, Result, ok, err, Returns, succeeded,
}
use wlt_traffic.Exec.{wrap, pure, proceed, ◌>>=◌, ◌>>◌}
use wlt_traffic.Storage.Types.{GoString, RecordKey, TrafficCounters}
use wlt_traffic.Storage.Text.{text_leb_total, text_leb_trans}
use wlt_traffic.Storage.Engine.{Engine, Session, Db, IsReliable, call}
use wlt_traffic.Storage.Listing.{
  list_checkpoints, select_checkpoints, key_leb, on_interface, mac_bytes, scan_rows, list_daily,
  list_totals, select_daily, select_totals,
}

pub key_leb_total : (a b : RecordKey) → (key_leb a b ≡ true) ⊎ (key_leb b a ≡ true)
unfolding key_leb
key_leb_total a b = ground (
  arith,
  text_leb_total a.interface_name b.interface_name,
  text_leb_total (mac_bytes a.mac) (mac_bytes b.mac),
)

pub key_leb_trans :
    (a b c : RecordKey) → key_leb a b ≡ true → key_leb b c ≡ true → key_leb a c ≡ true
unfolding key_leb
key_leb_trans a b c p q = ground (
  arith,
  text_leb_total a.interface_name b.interface_name,
  text_leb_total b.interface_name c.interface_name,
  text_leb_trans a.interface_name b.interface_name c.interface_name,
  text_leb_trans c.interface_name b.interface_name a.interface_name,
  text_leb_trans b.interface_name c.interface_name a.interface_name,
  text_leb_trans c.interface_name a.interface_name b.interface_name,
  text_leb_trans (mac_bytes a.mac) (mac_bytes b.mac) (mac_bytes c.mac),
)

-- what a reading method does: it leaves the database as it is, and without an error it returns
-- `rows`; without faults there is no error
pub record Reads {A : Type 0} (e : Engine) (m : Db (List A)) (rows : List A) (s : Session)
    : Type 0 where
  pub committed : (m s).1.committed ≡ s.committed
  pub pending : (m s).1.pending ≡ s.pending
  pub returns : Returns (m s).0 rows
  pub succeeds : IsReliable e → succeeded (m s).0 ≡ true

module _ (e : Engine) where
  -- what is computed of the rows
  Returns-computed :
      {A B : Type 0} (f : A → B) (a : A) (r : Result A) (s : Session)
      → Returns r a
      → Returns (proceed (r, s) (λ b. pure (f b))).0 (f a)
  Returns-computed f a (ok b) s h = ap f h
  Returns-computed f a (err x) s h = tt

  pub computed-Reads :
      {A B : Type 0} (f : List A → List B) (m : Db (List A)) (rows : List A) (s : Session)
      → Reads e m rows s
      → Reads e (do b ← m; pure (f b)) (f rows) s
  computed-Reads f m rows s r = record {
    committed = ground (arith, r.committed);
    pending = ground (arith, r.pending);
    returns = Returns-computed f rows (m s).0 (m s).1 r.returns;
    succeeds = λ q. ground (arith, r.succeeds q);
  }

  scan_rows-Reads :
      {A : Type 0} (stage : Stage) (rows : List A) (s : Session)
      → Reads e (scan_rows e stage rows) rows s
  unfolding scan_rows call
  scan_rows-Reads stage [] s = record {
    committed = refl;
    pending = refl;
    returns = refl;
    succeeds = λ r. refl;
  }
  scan_rows-Reads stage (row ∷ rows) s =
      let s₁ : Session = record s { calls = suc s.calls } in
      let ih = scan_rows-Reads stage rows s₁ in
      record {
        committed = ground (arith, ih.committed);
        pending = ground (arith, ih.pending);
        returns = ground (arith, ih.returns);
        succeeds = λ r. ground (arith, ih.succeeds r, r.no_fault s.calls);
      }

  -- a listing method: the query, the scan of its rows and the check of `rows.Err()`
  listing-Reads :
      {A : Type 0} (query row end : Stage) (rows : List A) (s : Session)
      → Reads e
          (do wrap query (call e); xs ← scan_rows e row rows; wrap end (call e); pure xs)
          rows
          s
  unfolding call
  listing-Reads query row end rows s =
      let s₁ : Session = record s { calls = suc s.calls } in
      let ih = scan_rows-Reads row rows s₁ in
      record {
        committed = ground (arith, ih.committed);
        pending = ground (arith, ih.pending);
        returns = ground (arith, ih.returns);
        succeeds = λ r. ground (
          arith,
          ih.succeeds r,
          r.no_fault s.calls,
          r.no_fault (scan_rows e row rows s₁).1.calls,
        );
      }

  pub list_totals-Reads :
      (filter : GoString) (s : Session)
      → Reads e (list_totals e filter) (select_totals filter s.committed) s
  unfolding list_totals call
  list_totals-Reads filter s =
      let r =
        listing-Reads listing_totals scanning_total_record iterating_total_rows
          (select_totals filter s.committed) s in
      record {
        committed = ground (arith, r.committed);
        pending = ground (arith, r.pending);
        returns = ground (arith, r.returns);
        succeeds = λ q. ground (arith, r.succeeds q);
      }

  pub list_checkpoints-Reads :
      (filter : GoString) (s : Session)
      → Reads e (list_checkpoints e filter) (select_checkpoints filter s.committed) s
  unfolding list_checkpoints call
  list_checkpoints-Reads filter s =
      let r =
        listing-Reads listing_checkpoints scanning_checkpoint iterating_checkpoint_rows
          (select_checkpoints filter s.committed) s in
      record {
        committed = ground (arith, r.committed);
        pending = ground (arith, r.pending);
        returns = ground (arith, r.returns);
        succeeds = λ q. ground (arith, r.succeeds q);
      }

  pub list_daily-Reads :
      (start end filter : GoString) (s : Session)
      → Reads e (list_daily e start end filter) (select_daily start end filter s.committed) s
  unfolding list_daily call
  list_daily-Reads start end filter s =
      let r =
        listing-Reads listing_daily_records scanning_daily_record iterating_daily_rows
          (select_daily start end filter s.committed) s in
      record {
        committed = ground (arith, r.committed);
        pending = ground (arith, r.pending);
        returns = ground (arith, r.returns);
        succeeds = λ q. ground (arith, r.succeeds q);
      }

module _ {A B : Type 0} (f : A → B) (le : B → B → Bool) where
  All-le_map :
      (x : B) (xs : List A) → All (λ y. le x (f y) ≡ true) xs → All (λ y. le x y ≡ true) (map f xs)
  All-le_map x [] h = tt
  All-le_map x (y ∷ xs) h = (h.0, All-le_map x xs h.1)

  pub IsOrdered-map : (xs : List A) → IsOrdered (λ x y. le (f x) (f y)) xs → IsOrdered le (map f xs)
  IsOrdered-map [] h = tt
  IsOrdered-map (x ∷ xs) h = (All-le_map (f x) xs h.0, IsOrdered-map xs h.1)

-- `ListTotals` returns the rows of the interface in the order of their keys, with no error where no
-- call of the driver fails, and changes nothing.
pub list_totals_lem :
    (e : Engine) (filter : GoString) (s : Session)
    → Reads e (list_totals e filter) (select_totals filter s.committed) s
      × IsOrdered (λ a b. key_leb a.key b.key) (select_totals filter s.committed)
unfolding select_totals
list_totals_lem e filter s = (
  list_totals-Reads e filter s,
  IsOrdered-map (λ (row : RecordKey × TrafficCounters). record { key = row.0; counters = row.1 })
      (λ a b. key_leb a.key b.key)
      (sort_by (λ a b. key_leb a.0 b.0)
        (keep (λ row. on_interface filter row.0) s.committed.totals))
      (sort_by-IsOrdered (λ a b. key_leb a.0 b.0) (λ x y. key_leb_total x.0 y.0)
        (λ x y z. key_leb_trans x.0 y.0 z.0)
        (keep (λ row. on_interface filter row.0) s.committed.totals)),
)
