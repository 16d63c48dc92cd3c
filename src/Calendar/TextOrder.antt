-- ===== src/Calendar/TextOrder.antt =====
-- The text of a date sorts as the date does, so the TEXT comparisons of storage.go select days.
use wlt_traffic.Base.{
  ℕ, ◌/◌, ◌%◌, ◌≤◌, ◌<◌, ◌≡◌, refl, true, ◌&&◌, ◌||◌, [], ◌∷◌, arith, ltb, leb, ◌==◌, ◌∙◌,
}
use wlt_traffic.Storage.Types.{GoString}
use wlt_traffic.Storage.Text.{text_leb}
use wlt_traffic.Calendar.{Date, digit, date_of_day, day_of, format, format_date_utc}
use wlt_traffic.Calendar.Order.{IsDate, rank, date_of_day-IsDate, leb-rank}

-- two digits, and then the rest
text_leb-two :
    (a b : ℕ) (s t : GoString)
    → text_leb (digit (a / 10) ∷ digit a ∷ s) (digit (b / 10) ∷ digit b ∷ t)
      ≡ (ltb (a % 100) (b % 100) || a % 100 == b % 100 && text_leb s t)
unfolding text_leb
text_leb-two a b s t = ground arith

text_leb-dash : (s t : GoString) → text_leb (b'-' ∷ s) (b'-' ∷ t) ≡ text_leb s t
unfolding text_leb
text_leb-dash s t = refl

text_leb-four :
    (a b : ℕ) (s t : GoString)
    → a < 10_000
    → b < 10_000
    → text_leb
        (digit (a / 1000) ∷ digit (a / 100) ∷ digit (a / 10) ∷ digit a ∷ s)
        (digit (b / 1000) ∷ digit (b / 100) ∷ digit (b / 10) ∷ digit b ∷ t)
      ≡ (ltb a b || a == b && text_leb s t)
text_leb-four a b s t p q =
    let ea : a / 1000 ≡ a / 100 / 10 = omega arith in
    let eb : b / 1000 ≡ b / 100 / 10 = omega arith in
    rw (ea, eb)
      (text_leb-two (a / 100) (b / 100) (digit (a / 10) ∷ digit a ∷ s)
          (digit (b / 10) ∷ digit b ∷ t)
        ∙ ground (arith, text_leb-two a b s t))

abbrev day_text : Date → GoString
day_text d = digit (d.day / 10) ∷ digit d.day ∷ []

abbrev month_text : Date → GoString
month_text d = digit (d.month / 10) ∷ digit d.month ∷ b'-' ∷ day_text d

module _ (a b : Date) (h : IsDate a) (k : IsDate b) where
  text_leb-day : text_leb (day_text a) (day_text b) ≡ leb a.day b.day
  unfolding text_leb
  text_leb-day = ground arith

  text_leb-month :
      text_leb (month_text a) (month_text b)
      ≡ (ltb a.month b.month || a.month == b.month && leb a.day b.day)
  text_leb-month =
      text_leb-two a.month b.month (b'-' ∷ day_text a) (b'-' ∷ day_text b)
      ∙ rw (text_leb-dash (day_text a) (day_text b), text_leb-day) (ground arith)

  pub text_leb-format :
      a.year < 10_000 → b.year < 10_000 → text_leb (format a) (format b) ≡ leb (rank a) (rank b)
  unfolding format
  text_leb-format p q =
      text_leb-four a.year b.year (b'-' ∷ month_text a) (b'-' ∷ month_text b) p q
      ∙ rw (text_leb-dash (month_text a) (month_text b), text_leb-month) (ground arith)

-- Two times until the year 9999: their dates compare as texts as their days do.
pub text_leb-format_date_utc :
    (s t : ℕ)
    → (date_of_day (day_of s)).year < 10_000
    → (date_of_day (day_of t)).year < 10_000
    → text_leb (format_date_utc s) (format_date_utc t) ≡ leb (day_of s) (day_of t)
unfolding format_date_utc
text_leb-format_date_utc s t p q =
    text_leb-format (date_of_day (day_of s)) (date_of_day (day_of t))
      (date_of_day-IsDate (day_of s)) (date_of_day-IsDate (day_of t)) p q
    ∙ leb-rank (day_of s) (day_of t)

-- An earlier time has no later year.
pub year_mono : (s t : ℕ) → s ≤ t → (date_of_day (day_of s)).year ≤ (date_of_day (day_of t)).year
year_mono s t h = ground (
  arith,
  leb-rank (day_of s) (day_of t),
  date_of_day-IsDate (day_of s),
  date_of_day-IsDate (day_of t),
)

pub text_leb-later :
    (s t : ℕ)
    → s ≤ t
    → (date_of_day (day_of t)).year < 10_000
    → text_leb (format_date_utc s) (format_date_utc t) ≡ true
text_leb-later s t h p =
    text_leb-format_date_utc s t (omega (arith, year_mono s t h)) p ∙ ground arith
