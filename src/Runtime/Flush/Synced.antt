-- ===== src/Runtime/Flush/Synced.antt =====
-- The invariant that ties the three tables together, and that every flush keeps.
use wlt_traffic.Base.{
  ◌≡◌, ◌≢◌, sym, ap, subst, true, Option, none, some, arith, inl, inr, Option-cases, ◌∙◌,
}
use wlt_traffic.Storage.Types.{
  GoString, RecordKey, TrafficCounters, CheckpointRow, RecordKey-discrete, GoString-discrete,
  no_traffic, zip_counters,
}
use wlt_traffic.Storage.Text.{text_leb, text_leb_refl, text_leb_trans, text_leb_antisymm}
use wlt_traffic.Storage.Engine.{Engine, Tables, IsExact}
use wlt_traffic.Runtime.Flush.{sub64}
use wlt_traffic.Runtime.Flush.Delta.{Fits, delta_of_fresh, catch_up, idle_unchanged}
use wlt_traffic.Runtime.Flush.Account.{Entry, entry_key, entry_raw, account, delta_in}
use wlt_traffic.Runtime.Flush.Rows.{
  checkpoint_row, daily_row, grown, delta_in-first, delta_in-today, delta_in-new_day,
  checkpoint-account_self, checkpoint-account_ne, daily-account_self, daily-account_ne,
}

-- a missing row counts as no traffic
abbrev pub counters_of : Option TrafficCounters → TrafficCounters
counters_of none = no_traffic
counters_of (some c) = c

-- what the tables hold of one key, on the day `today`
pub record SyncedKey (today : GoString) (t : Tables) (k : RecordKey) : Type 0 where
  -- the last raw counters are int64 values, and were seen today or before
  pub fits : (row : CheckpointRow) → checkpoint_row t k ≡ some row → Fits row.last
  pub past :
      (row : CheckpointRow) → checkpoint_row t k ≡ some row → text_leb row.date_utc today ≡ true
  -- a daily row is not younger than the checkpoint of its key
  pub dated :
      (d : GoString) (c : TrafficCounters)
      → daily_row t k d ≡ some c
      → (row : CheckpointRow) × (checkpoint_row t k ≡ some row) × (text_leb d row.date_utc ≡ true)
  -- the bucket of the day of the checkpoint holds its raw counters
  pub same :
      (row : CheckpointRow)
      → checkpoint_row t k ≡ some row
      → row.date_utc ≡ today
      → counters_of (daily_row t k today) ≡ row.last

pub record IsSynced (today : GoString) (t : Tables) : Type 0 where
  pub at : (k : RecordKey) → SyncedKey today t k

-- a bucket that holds the last raw counters
module _ (e : Engine) (x : IsExact e) (raw : TrafficCounters) (p : Fits raw) where
  -- adding a whole raw value to no row
  pub grown-none : counters_of (grown e raw none) ≡ raw
  grown-none = ground arith

  pub grown-last :
      (last : TrafficCounters) (o : Option TrafficCounters)
      → Fits last
      → Fits (zip_counters sub64 raw last)
      → counters_of o ≡ last
      → counters_of (grown e (zip_counters sub64 raw last) o) ≡ raw
  grown-last last none q h c =
      subst (λ l. counters_of (grown e (zip_counters sub64 raw l) none) ≡ raw) c
        (subst (λ d. counters_of (grown e d none) ≡ raw) (sym (delta_of_fresh raw p)) grown-none)
  grown-last last (some w) q h c =
      ground (arith, catch_up raw last p q e x h, idle_unchanged raw last p q)

-- No bucket of today before the first flush of the day.
module _ (today : GoString) (t : Tables) (k : RecordKey) (synced : SyncedKey today t k) where
  pub daily_row-first : checkpoint_row t k ≡ none → daily_row t k today ≡ none
  daily_row-first h = elim (Option-cases (daily_row t k today)) [
    | inl absent ↦ absent
    | inr (c, found) ↦ cc ((synced.dated today c found).1, h)
  ]

  pub daily_row-new_day :
      (row : CheckpointRow)
      → checkpoint_row t k ≡ some row
      → row.date_utc ≢ today
      → daily_row t k today ≡ none
  daily_row-new_day row h new = elim (Option-cases (daily_row t k today)) [
    | inl absent ↦ absent
    | inr (c, found) ↦
        let (row', h', older) = synced.dated today c found in
        absurd (
          new (
            sym (
              text_leb_antisymm today row.date_utc (ground (arith, h, h', older))
                (synced.past row h))))
  ]

-- The bucket of today holds the raw counters once an entry is accounted for.
module _ (e : Engine) (x : IsExact e) (today : GoString) (t : Tables) (entry : Entry) where
  pub grown-delta :
      SyncedKey today t (entry_key entry)
      → Fits (entry_raw entry)
      → Fits (delta_in e today t entry)
      → counters_of (grown e (delta_in e today t entry) (daily_row t (entry_key entry) today))
        ≡ entry_raw entry
  grown-delta synced p h = elim (Option-cases (checkpoint_row t (entry_key entry))) [
    | inl first ↦
        rw (delta_in-first e today t entry first, daily_row-first today t _ synced first)
          (grown-none e x _ p)
    | inr (row, found) ↦ elim (GoString-discrete row.date_utc today) [
      | yes q ↦
          let d = delta_in-today e today t entry row found q in
          rw d (
            grown-last e x _ p row.last (daily_row t (entry_key entry) today)
              (synced.fits row found) (subst Fits d h) (synced.same row found q))
      | no q ↦
          rw
            (
              delta_in-new_day e today t entry row found q,
              daily_row-new_day today t _ synced row found q,
            )
            (grown-none e x _ p)
    ]
  ]

-- no bucket of the future
dated_today :
    {today : GoString} {t : Tables} {k : RecordKey}
    → SyncedKey today t k
    → (d : GoString) (c : TrafficCounters) → daily_row t k d ≡ some c
    → text_leb d today ≡ true
dated_today {today} synced d c f =
    let (row, g, older) = synced.dated d c f in
    text_leb_trans d row.date_utc today older (synced.past row g)

abbrev last_of : Option CheckpointRow → TrafficCounters
last_of none = no_traffic
last_of (some row) = row.last

-- Accounting for one entry whose counters are int64 values keeps the invariant.
module _ (e : Engine) (x : IsExact e) (today : GoString) (t : Tables) (entry : Entry) where
  account-SyncedKey_self :
      SyncedKey today t (entry_key entry)
      → Fits (entry_raw entry)
      → Fits (delta_in e today t entry)
      → SyncedKey today (account e today entry t) (entry_key entry)
  account-SyncedKey_self synced p h = record {
    fits = λ row f. ground (arith, checkpoint-account_self e today entry t);
    past = λ row f. ground (arith, checkpoint-account_self e today entry t, text_leb_refl today);
    dated = λ d c f. (
      record { date_utc = today; last = entry_raw entry },
      checkpoint-account_self e today entry t,
      elim (GoString-discrete today d) [
        | yes q ↦ subst (λ z. text_leb z today ≡ true) q (text_leb_refl today)
        | no q ↦
            dated_today synced d c
              (rw (daily-account_ne e today entry t (entry_key entry) d (λ same_key. q)) at f)
      ],
    );
    same = λ row f q.
        ap counters_of (daily-account_self e today entry t)
        ∙ grown-delta e x today t entry synced p h
        ∙ ap last_of (sym (checkpoint-account_self e today entry t) ∙ f);
  }

  account-SyncedKey_ne :
      (k : RecordKey)
      → entry_key entry ≢ k
      → SyncedKey today t k
      → SyncedKey today (account e today entry t) k
  account-SyncedKey_ne k n synced = record {
    fits = λ row f. synced.fits row (rw (checkpoint-account_ne e today entry t k n) at f);
    past = λ row f. synced.past row (rw (checkpoint-account_ne e today entry t k n) at f);
    dated = λ d c f. rw (checkpoint-account_ne e today entry t k n) (
        synced.dated d c
          (rw (daily-account_ne e today entry t k d (λ same_key. absurd (n same_key))) at f));
    same = λ row f q.
        rw (daily-account_ne e today entry t k today (λ same_key. absurd (n same_key)))
          (synced.same row (rw (checkpoint-account_ne e today entry t k n) at f) q);
  }

  pub account-IsSynced :
      IsSynced today t
      → Fits (entry_raw entry)
      → Fits (delta_in e today t entry)
      → IsSynced today (account e today entry t)
  account-IsSynced synced p h = record {
    at = λ k. elim (RecordKey-discrete (entry_key entry) k) [
      | yes q ↦
          subst (SyncedKey today (account e today entry t)) q
            (account-SyncedKey_self (synced.at (entry_key entry)) p h)
      | no q ↦ account-SyncedKey_ne k q (synced.at k)
    ];
  }
