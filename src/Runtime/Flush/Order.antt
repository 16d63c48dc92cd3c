-- ===== src/Runtime/Flush/Order.antt =====
-- The order in which the kernel gives its entries: it changes the order of rows, and nothing else.
use mathlib.Core.List.{Permᴰ}
use mathlib.Core.List.Permᴰ
use wlt_traffic.Base.{
  ◌≡◌, ◌≢◌, refl, sym, subst, ◌∙◌, Bool, true, false, ◌&&◌, some, List, [], ◌∷◌, All, arith, ite,
  if◌then◌else◌,
}
use wlt_traffic.Base.Sort.{All-perm}
use wlt_traffic.Storage.Types.{GoString, GoString-discrete, RecordKey, RecordKey-discrete}
use wlt_traffic.Storage.Engine.{Engine, Tables}
use wlt_traffic.Runtime.Flush.Account.{Entry, entry_key, entry_raw, account, account_all, delta_in}
use wlt_traffic.Runtime.Flush.Repeat.{IsDistinct}
use wlt_traffic.Runtime.Flush.Rows.{
  checkpoint_row, total_row, daily_row, grown, checkpoint-account_self, checkpoint-account_ne,
  total-account_self, total-account_ne, daily-account_self, daily-account_ne,
}

-- the same rows, in whatever order
pub record SameRows (t t' : Tables) : Type 0 where
  pub checkpoint : (k : RecordKey) → checkpoint_row t k ≡ checkpoint_row t' k
  pub total : (k : RecordKey) → total_row t k ≡ total_row t' k
  pub daily : (k : RecordKey) (d : GoString) → daily_row t k d ≡ daily_row t' k d

pub SameRows-refl : (t : Tables) → SameRows t t
SameRows-refl t = record { checkpoint = λ k. refl; total = λ k. refl; daily = λ k d. refl }

pub SameRows-trans : (t u v : Tables) → SameRows t u → SameRows u v → SameRows t v
SameRows-trans t u v p q = record {
  checkpoint = λ k. p.checkpoint k ∙ q.checkpoint k;
  total = λ k. p.total k ∙ q.total k;
  daily = λ k d. p.daily k d ∙ q.daily k d;
}

abbrev same_key : RecordKey → RecordKey → Bool
same_key j k = ite (RecordKey-discrete j k) true false

abbrev same_day : GoString → GoString → Bool
same_day c d = ite (GoString-discrete c d) true false

-- two keys that differ are not both some third key
apart_keys : (j k i : RecordKey) → j ≢ k → same_key j i ≡ true → same_key k i ≡ false
apart_keys j k i h p = ground (arith, h, p)

pub IsDistinct-perm : (es es' : List Entry) → Permᴰ es es' → IsDistinct es → IsDistinct es'
IsDistinct-perm es es' Permᴰ.nil h = tt
IsDistinct-perm (x ∷ es) (y ∷ es') (Permᴰ.cons p q) h = (
  subst (λ z. All (λ other. entry_key other ≢ entry_key z) es') p
      (All-perm (λ other. entry_key other ≢ entry_key x) es' es (Permᴰ.symm q) h.0),
  IsDistinct-perm es es' q h.1,
)
IsDistinct-perm us us' (Permᴰ.swap {a = x} {b = y} {b' = x'} {l = es} p q) h =
    subst (λ z. IsDistinct (z ∷ x' ∷ es)) q
      (subst (λ z. IsDistinct (y ∷ z ∷ es)) p ((λ e. h.0.0 (sym e), h.1.0), (h.0.1, h.1.1)))
IsDistinct-perm es es' (Permᴰ.trans p q) h = IsDistinct-perm _ es' q (IsDistinct-perm es _ p h)

module _ (e : Engine) (today : GoString) where
  -- the delta of an entry depends on its checkpoint only
  delta_in-checkpoint :
      (t t' : Tables) (entry : Entry)
      → checkpoint_row t (entry_key entry) ≡ checkpoint_row t' (entry_key entry)
      → delta_in e today t entry ≡ delta_in e today t' entry
  delta_in-checkpoint t t' entry h = rw h refl

  -- all rows after an entry is accounted for
  module _ (entry : Entry) (t : Tables) where
    checkpoint-account :
        (k : RecordKey)
        → checkpoint_row (account e today entry t) k ≡ (
            if same_key (entry_key entry) k
            then some (record { date_utc = today; last = entry_raw entry })
            else checkpoint_row t k)
    checkpoint-account k = elim (RecordKey-discrete (entry_key entry) k) [
      | yes p ↦ rw (← p) (checkpoint-account_self e today entry t ∙ ground arith)
      | no p ↦ checkpoint-account_ne e today entry t k p ∙ ground (arith, p)
    ]

    total-account :
        (k : RecordKey)
        → total_row (account e today entry t) k ≡ (
            if same_key (entry_key entry) k
            then grown e (delta_in e today t entry) (total_row t k)
            else total_row t k)
    total-account k = elim (RecordKey-discrete (entry_key entry) k) [
      | yes p ↦ rw (← p) (total-account_self e today entry t ∙ ground arith)
      | no p ↦ total-account_ne e today entry t k p ∙ ground (arith, p)
    ]

    daily-account :
        (k : RecordKey) (d : GoString)
        → daily_row (account e today entry t) k d ≡ (
            if same_key (entry_key entry) k && same_day today d
            then grown e (delta_in e today t entry) (daily_row t k d)
            else daily_row t k d)
    daily-account k d = elim (RecordKey-discrete (entry_key entry) k) [
      | no p ↦ daily-account_ne e today entry t k d (λ q. absurd (p q)) ∙ ground (arith, p)
      | yes p ↦ elim (GoString-discrete today d) [
        | no q ↦ daily-account_ne e today entry t k d (λ r. q) ∙ ground (arith, q)
        | yes q ↦ rw (← p, ← q) (daily-account_self e today entry t ∙ ground arith)
      ]
    ]

  pub account-SameRows :
      (entry : Entry) (t t' : Tables)
      → SameRows t t'
      → SameRows (account e today entry t) (account e today entry t')
  account-SameRows entry t t' h =
      let delta = delta_in-checkpoint t t' entry (h.checkpoint (entry_key entry)) in
      record {
        checkpoint = λ k.
            checkpoint-account entry t k
            ∙ rw (h.checkpoint k) (sym (checkpoint-account entry t' k));
        total =
            λ k. total-account entry t k ∙ rw (delta, h.total k) (sym (total-account entry t' k));
        daily = λ k d.
            daily-account entry t k d ∙ rw (delta, h.daily k d) (sym (daily-account entry t' k d));
      }

  module _ (x y : Entry) (t : Tables) (apart : entry_key x ≢ entry_key y) where
    -- the other entry leaves the checkpoint alone
    delta_in-account : delta_in e today (account e today y t) x ≡ delta_in e today t x
    delta_in-account =
        delta_in-checkpoint (account e today y t) t x
          (checkpoint-account_ne e today y t (entry_key x) (λ p. apart (sym p)))

  pub account_comm :
      (x y : Entry) (t : Tables)
      → entry_key x ≢ entry_key y
      → SameRows (account e today x (account e today y t)) (account e today y (account e today x t))
  account_comm x y t apart =
      let tx = account e today x t in
      let ty = account e today y t in
      let dx = delta_in-account x y t apart in
      let dy = delta_in-account y x t (λ p. apart (sym p)) in
      let never = λ (k : RecordKey). apart_keys (entry_key x) (entry_key y) k apart in
      record {
        checkpoint = λ k. ground (
          arith,
          checkpoint-account x ty k,
          checkpoint-account y t k,
          checkpoint-account y tx k,
          checkpoint-account x t k,
          never k,
        );
        total = λ k. ground (
          arith,
          total-account x ty k,
          total-account y t k,
          total-account y tx k,
          total-account x t k,
          never k,
          dx,
          dy,
        );
        daily = λ k d. ground (
          arith,
          daily-account x ty k d,
          daily-account y t k d,
          daily-account y tx k d,
          daily-account x t k d,
          never k,
          dx,
          dy,
        );
      }

  pub account_all-SameRows :
      (es : List Entry) (t t' : Tables)
      → SameRows t t'
      → SameRows (account_all e today es t) (account_all e today es t')
  unfolding account_all
  account_all-SameRows [] t t' h = h
  account_all-SameRows (entry ∷ es) t t' h =
      account_all-SameRows es (account e today entry t) (account e today entry t')
        (account-SameRows entry t t' h)

  -- Accounting for distinct entries in another order gives the same rows.
  pub account_all-perm :
      (es es' : List Entry) (t : Tables)
      → Permᴰ es es'
      → IsDistinct es
      → SameRows (account_all e today es t) (account_all e today es' t)
  unfolding account_all
  account_all-perm es es' t Permᴰ.nil h = SameRows-refl t
  account_all-perm (x ∷ es) (y ∷ es') t (Permᴰ.cons p q) h =
      subst
        (λ z.
          SameRows (account_all e today es (account e today x t))
            (account_all e today es' (account e today z t)))
        p (account_all-perm es es' (account e today x t) q h.1)
  account_all-perm us us' t (Permᴰ.swap {a = x} {b = y} {b' = x'} {l = es} p q) h =
      let begun = account_all e today es (account e today y (account e today x t)) in
      subst (λ z. SameRows begun (account_all e today (z ∷ x' ∷ es) t)) q
        (subst (λ z. SameRows begun (account_all e today (y ∷ z ∷ es) t)) p
          (account_all-SameRows es (account e today y (account e today x t))
            (account e today x (account e today y t)) (account_comm y x t h.0.0)))
  account_all-perm es es' t (Permᴰ.trans {l₂ = us} p q) h =
      SameRows-trans (account_all e today es t) (account_all e today us t)
        (account_all e today es' t) (account_all-perm es us t p h)
        (account_all-perm us es' t q (IsDistinct-perm es us p h))
