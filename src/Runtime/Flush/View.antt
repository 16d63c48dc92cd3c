-- ===== src/Runtime/Flush/View.antt =====
-- The database without the order of its rows, and a flush as a function of it: the order in which
-- the kernel gives its entries does not matter.
use mathlib.Core.List.{Permᴰ}
use mathlib.Core.List.Permᴰ
use mathlib.Core.Quot
use mathlib.Core.Quot.{Quot, Quot-set}
use wlt_traffic.Base.{
  ℕ, ◌<◌, ◌≡◌, ◌≢◌, refl, sym, ap, ◌∙◌, none, some, List, [], ◌∷◌, length, arith,
}
use wlt_traffic.Base.Sort.{All-perm}
use wlt_traffic.Calendar.{current_date_utc}
use wlt_traffic.Storage.Types.{GoString}
use wlt_traffic.Storage.Engine.{Engine, Tables, IsReliable}
use wlt_traffic.Ebpf.TrafficMap.{BpfMap}
use wlt_traffic.Runtime.Flush.{FlushLoop, kernel_map, flush}
use wlt_traffic.Runtime.Flush.Delta.{Fits}
use wlt_traffic.Runtime.Flush.Account.{Entry, entry_key, entry_raw, account, account_all}
use wlt_traffic.Runtime.Flush.Complete.{Lists, Accepted, NotBehind}
use wlt_traffic.Runtime.Flush.Correct.{flush_total}
use wlt_traffic.Runtime.Flush.Order.{
  SameRows, IsDistinct-perm, account-SameRows, account_comm, account_all-perm,
}

-- tables up to the order of their rows
abbrev pub View : Type 0
View = Quot SameRows

abbrev pub view_of : Tables → View
view_of = Quot.mk

module _ (e : Engine) (today : GoString) where
  -- accounting does not look at the order
  unfoldable pub account_view : Entry → View → View
  account_view entry =
      Quot.lift Quot-set (λ t. view_of (account e today entry t))
        (λ t t' h. Quot.sound (account-SameRows e today entry t t' h))

  unfoldable pub account_view_all : List Entry → View → View
  account_view_all [] v = v
  account_view_all (entry ∷ es) v = account_view_all es (account_view entry v)

  pub account_view_comm :
      (x y : Entry)
      → entry_key x ≢ entry_key y
      → (v : View) → account_view x (account_view y v) ≡ account_view y (account_view x v)
  unfolding account_view
  account_view_comm x y apart =
      Quot.ind (λ v. Quot-set _ _) (λ t. Quot.sound (account_comm e today x y t apart))

  pub account_all-view :
      (es : List Entry) (t : Tables)
      → view_of (account_all e today es t) ≡ account_view_all es (view_of t)
  unfolding account_all account_view account_view_all
  account_all-view [] t = refl
  account_all-view (entry ∷ es) t = account_all-view es (account e today entry t)

length-perm : {A : Type 0} (xs ys : List A) → Permᴰ xs ys → length xs ≡ length ys
length-perm xs ys Permᴰ.nil = refl
length-perm xs ys (Permᴰ.cons p q) = omega (arith, length-perm _ _ q)
length-perm xs ys (Permᴰ.swap p q) = omega arith
length-perm xs ys (Permᴰ.trans p q) = length-perm xs _ p ∙ length-perm _ ys q

Accepted-perm :
    (today : GoString) (t : Tables) (es es' : List Entry)
    → Permᴰ es es'
    → Accepted today t es
    → Accepted today t es'
Accepted-perm today t es es' p a = record {
  fit = All-perm (λ entry. Fits (entry_raw entry)) es' es (Permᴰ.symm p) a.fit;
  distinct = IsDistinct-perm es es' p a.distinct;
  not_behind = All-perm (NotBehind today t) es' es (Permᴰ.symm p) a.not_behind;
}

module _ (e : Engine) (fuel started finished : ℕ) (f : FlushLoop) (m m' : BpfMap)
    (real : kernel_map f.traffic_map ≡ some m) where
  -- If no call of the driver fails, no transaction is open, the map lists entries that the database
  -- accepts, and there is more fuel than entries: a map that lists the same entries in another
  -- order gives a flush that leaves the same database, up to the order of the rows.
  pub flush_order :
      (es es' : List Entry)
      → Lists m none es
      → Lists m' none es'
      → Permᴰ es es'
      → length es < fuel
      → IsReliable e
      → f.repo.pending ≡ none
      → Accepted (current_date_utc started) f.repo.committed es
      → let g = record f { traffic_map = some (record { m = some m' }) } in
        view_of (flush e fuel started finished f).1.repo.committed
        ≡ view_of (flush e fuel started finished g).1.repo.committed
  flush_order es es' listed listed' p enough r shut a =
      let today = current_date_utc started in
      let g : FlushLoop = record f { traffic_map = some (record { m = some m' }) } in
      let one = flush_total e fuel started finished f m real es listed enough r shut a in
      let two =
        flush_total e fuel started finished g m' refl es' listed'
          (omega (arith, length-perm es es' p)) r shut
          (Accepted-perm today f.repo.committed es es' p a) in
      ap view_of one.1
      ∙ Quot.sound (account_all-perm e today es es' f.repo.committed p a.distinct)
      ∙ sym (ap view_of two.1)
