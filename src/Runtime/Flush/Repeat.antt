-- ===== src/Runtime/Flush/Repeat.antt =====
-- Flushing again with no new traffic counts nothing twice.
use wlt_traffic.Base.{
  ◌≡◌, ◌≢◌, refl, sym, subst, ◌∙◌, true, some, List, [], ◌∷◌, arith, All, All-map,
}
use wlt_traffic.Storage.Types.{GoString, RecordKey, CheckpointRow, RecordKey-discrete}
use wlt_traffic.Storage.Engine.{Engine, Tables}
use wlt_traffic.Storage.Repository.{put_checkpoint}
use wlt_traffic.Runtime.Flush.{is_idle}
use wlt_traffic.Runtime.Flush.Delta.{Fits, idle_self}
use wlt_traffic.Runtime.Flush.Account.{Entry, entry_key, entry_raw, account, account_all, delta_in}
use wlt_traffic.Runtime.Flush.Rows.{
  checkpoint_row, delta_in-today, checkpoint-account_self, checkpoint-account_ne,
}

-- no two entries have one key
abbrev pub IsDistinct : List Entry → Type 0
IsDistinct [] = Unit
IsDistinct (entry ∷ es) = All (λ other. entry_key other ≢ entry_key entry) es × IsDistinct es

-- the two tables that are counted from
pub record SameCounts (t t' : Tables) : Type 0 where
  pub totals : t'.totals ≡ t.totals
  pub daily : t'.daily ≡ t.daily

module _ (today : GoString) where
  -- the checkpoint of an entry that has just been flushed
  abbrev pub row_of : Entry → CheckpointRow
  row_of entry = record { date_utc = today; last = entry_raw entry }

  -- the checkpoint of the entry is of today and has its counters, which are int64 values
  pub record IsSeen (t : Tables) (entry : Entry) : Type 0 where
    pub row : checkpoint_row t (entry_key entry) ≡ some (row_of entry)
    pub fits : Fits (entry_raw entry)

module _ (e : Engine) (today : GoString) where
  delta_in-seen :
      (t : Tables) (entry : Entry)
      → IsSeen today t entry
      → is_idle (delta_in e today t entry) ≡ true
  delta_in-seen t entry h =
      subst (λ d. is_idle d ≡ true)
        (sym (delta_in-today e today t entry (row_of today entry) h.row refl))
        (idle_self (entry_raw entry) h.fits)

  account-seen :
      (t : Tables) (entry : Entry) → IsSeen today t entry → SameCounts t (account e today entry t)
  unfolding account put_checkpoint
  account-seen t entry h = ground (arith, delta_in-seen t entry h)

  checkpoint-account_seen :
      (t : Tables) (entry : Entry)
      → IsSeen today t entry
      → (k : RecordKey) → checkpoint_row (account e today entry t) k ≡ checkpoint_row t k
  checkpoint-account_seen t entry h k = elim (RecordKey-discrete (entry_key entry) k) [
    | yes q ↦
        subst (λ j. checkpoint_row (account e today entry t) j ≡ checkpoint_row t j) q
          (checkpoint-account_self e today entry t ∙ sym h.row)
    | no q ↦ checkpoint-account_ne e today entry t k q
  ]

  account-IsSeen :
      (t : Tables) (entry : Entry)
      → IsSeen today t entry
      → (other : Entry) → IsSeen today t other
      → IsSeen today (account e today entry t) other
  account-IsSeen t entry h other k = record {
    row = checkpoint-account_seen t entry h (entry_key other) ∙ k.row;
    fits = k.fits;
  }

  -- Accounting once more for entries that are seen changes no count.
  pub account_all-seen :
      (es : List Entry) (t : Tables)
      → All (IsSeen today t) es
      → SameCounts t (account_all e today es t)
  unfolding account_all
  account_all-seen [] t h = record { totals = refl; daily = refl }
  account_all-seen (entry ∷ es) t h =
      let t' = account e today entry t in
      let now = account-seen t entry h.0 in
      let later =
        account_all-seen es t'
          (All-map (IsSeen today t) (IsSeen today t') (account-IsSeen t entry h.0) es h.1) in
      record { totals = later.totals ∙ now.totals; daily = later.daily ∙ now.daily }

  checkpoint-account_all_ne :
      (es : List Entry) (t : Tables) (k : RecordKey)
      → All (λ other. entry_key other ≢ k) es
      → checkpoint_row (account_all e today es t) k ≡ checkpoint_row t k
  unfolding account_all
  checkpoint-account_all_ne [] t k h = refl
  checkpoint-account_all_ne (entry ∷ es) t k h =
      checkpoint-account_all_ne es (account e today entry t) k h.1
      ∙ checkpoint-account_ne e today entry t k h.0

  -- After a pass every entry has its checkpoint.
  pub checkpoint-account_all :
      (es : List Entry) (t : Tables)
      → IsDistinct es
      → All
          (λ entry.
            checkpoint_row (account_all e today es t) (entry_key entry) ≡ some (row_of today entry))
          es
  unfolding account_all
  checkpoint-account_all [] t h = tt
  checkpoint-account_all (entry ∷ es) t h = (
    checkpoint-account_all_ne es (account e today entry t) (entry_key entry) h.0
        ∙ checkpoint-account_self e today entry t,
    checkpoint-account_all es (account e today entry t) h.1,
  )
