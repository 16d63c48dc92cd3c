-- ===== src/Calendar.antt =====
-- The dates of internal/storage/storage.go (`CurrentDateUTC`, `FormatDateUTC`, `PruneCutoffDate`).
-- `time.Time` in UTC is the number of nanoseconds since 1970-01-01, of which the date is computed day
-- by day in the Gregorian calendar, as package time does. Years have four digits.
pub mod Order
pub mod TextOrder
use wlt_traffic.Base.{
  ℕ, zero, suc, ◌+◌, ◌-◌, ◌/◌, ◌%◌, Bool, ◌&&◌, ◌||◌, not, List, [], ◌∷◌, ◌*◌, ◌==◌, ltb,
  if◌then◌else◌,
}
use wlt_traffic.Storage.Types.{GoString}

pub record Date : Type 0 where
  pub year : ℕ
  pub month : ℕ
  pub day : ℕ

unfoldable pub is_leap : ℕ → Bool
is_leap y = y % 4 == 0 && not (y % 100 == 0) || y % 400 == 0

unfoldable pub days_in_month : ℕ → ℕ → ℕ
unfolding is_leap
days_in_month y m =
    if m == 2
    then (if is_leap y then 29 else 28)
    else (if m == 4 || m == 6 || m == 9 || m == 11 then 30 else 31)

unfoldable pub next_day : Date → Date
unfolding days_in_month
next_day d =
    if ltb d.day (days_in_month d.year d.month)
    then record d { day = suc d.day }
    else if ltb d.month 12
    then record d { month = suc d.month; day = 1 }
    else record { year = suc d.year; month = 1; day = 1 }

-- the date of the n-th day after 1970-01-01
unfoldable pub date_of_day : ℕ → Date
unfolding next_day
date_of_day zero = record { year = 1970; month = 1; day = 1 }
date_of_day (suc n) = next_day (date_of_day n)

abbrev pub digit : ℕ → ℕ
digit n = b'0' + n % 10

-- `Format("2006-01-02")`
unfoldable pub format : Date → GoString
format d =
    digit (d.year / 1000)
    ∷ digit (d.year / 100)
    ∷ digit (d.year / 10)
    ∷ digit d.year
    ∷ b'-'
    ∷ digit (d.month / 10)
    ∷ digit d.month
    ∷ b'-'
    ∷ digit (d.day / 10)
    ∷ digit d.day
    ∷ []

abbrev pub second : ℕ
second = 1_000_000_000

abbrev pub day_length : ℕ
day_length = 86_400 * second

abbrev pub day_of : ℕ → ℕ
day_of t = t / day_length

unfoldable pub format_date_utc : ℕ → GoString
unfolding date_of_day format
format_date_utc t = format (date_of_day (day_of t))

-- `CurrentDateUTC()` at the time `now`
unfoldable pub current_date_utc : ℕ → GoString
unfolding format_date_utc
current_date_utc now = format_date_utc now

-- `t.AddDate(0, 0, -n)`
abbrev pub days_before : ℕ → ℕ → ℕ
days_before n t = t - n * day_length

-- `PruneCutoffDate()` at the time `now`
unfoldable pub prune_cutoff_date : ℕ → GoString
unfolding format_date_utc
prune_cutoff_date now = format_date_utc (days_before 400 now)
