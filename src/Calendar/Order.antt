-- ===== src/Calendar/Order.antt =====
-- The calendar goes forward: later days have later dates.
use wlt_traffic.Base.{ℕ, zero, suc, ◌+◌, ◌*◌, ◌≤◌, ◌<◌, ◌≡◌, sym, subst, arith, dec_lt, leb}
use wlt_traffic.Calendar.{Date, days_in_month, next_day, date_of_day}

pub record IsDate (d : Date) : Type 0 where
  pub month_low : 1 ≤ d.month
  pub month_high : d.month ≤ 12
  pub day_low : 1 ≤ d.day
  pub day_high : d.day ≤ 31

-- year, month and day as one number, in the order of dates
abbrev pub rank : Date → ℕ
rank d = (d.year * 16 + d.month) * 32 + d.day

days_in_month_bounds : (y m : ℕ) → (28 ≤ days_in_month y m) × (days_in_month y m ≤ 31)
unfolding days_in_month
days_in_month_bounds y m = ground arith

next_day-IsDate : (d : Date) → IsDate d → IsDate (next_day d)
unfolding next_day
next_day-IsDate d h = ground (arith, days_in_month_bounds d.year d.month)

rank-next_day : (d : Date) → IsDate d → rank d < rank (next_day d)
unfolding next_day
rank-next_day d h = ground arith

pub date_of_day-IsDate : (n : ℕ) → IsDate (date_of_day n)
unfolding date_of_day
date_of_day-IsDate zero = omega arith
date_of_day-IsDate (suc n) = next_day-IsDate (date_of_day n) (date_of_day-IsDate n)

date_of_day_grows : (n : ℕ) → rank (date_of_day n) < rank (date_of_day (suc n))
unfolding date_of_day
date_of_day_grows n = rank-next_day (date_of_day n) (date_of_day-IsDate n)

date_of_day_mono : (a b : ℕ) → a < b → rank (date_of_day a) < rank (date_of_day b)
date_of_day_mono a zero h = elim h [ ]
date_of_day_mono a (suc b) h = elim (dec_lt a b) [
  | yes p ↦ omega (arith, date_of_day_mono a b p, date_of_day_grows b)
  | no p ↦
      let e : a ≡ b = omega arith in
      subst (λ k. rank (date_of_day k) < rank (date_of_day (suc b))) (sym e) (date_of_day_grows b)
]

-- The order of days is the order of their dates.
pub leb-rank : (a b : ℕ) → leb (rank (date_of_day a)) (rank (date_of_day b)) ≡ leb a b
leb-rank a b = ground (arith, date_of_day_mono a b, date_of_day_mono b a)
