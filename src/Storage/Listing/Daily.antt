-- ===== src/Storage/Listing/Daily.antt =====
-- The order of the rows of `ListDaily`.
use wlt_traffic.Base.{◌≡◌, ◌⊎◌, true, arith}
use wlt_traffic.Base.Sort.{IsOrdered, keep, sort_by, sort_by-IsOrdered}
use wlt_traffic.Storage.Types.{GoString, DailyKey, TrafficCounters, DailyRecord}
use wlt_traffic.Storage.Text.{text_leb_total, text_leb_trans}
use wlt_traffic.Storage.Engine.{Engine, Session}
use wlt_traffic.Storage.Listing.{daily_key_leb, in_range, list_daily, select_daily}
use wlt_traffic.Storage.Listing.Laws.{
  Reads, list_daily-Reads, key_leb_total, key_leb_trans, IsOrdered-map,
}

daily_key_leb_total : (a b : DailyKey) → (daily_key_leb a b ≡ true) ⊎ (daily_key_leb b a ≡ true)
unfolding daily_key_leb
daily_key_leb_total a b =
    ground (arith, key_leb_total a.key b.key, text_leb_total a.date_utc b.date_utc)

daily_key_leb_trans :
    (a b c : DailyKey)
    → daily_key_leb a b ≡ true
    → daily_key_leb b c ≡ true
    → daily_key_leb a c ≡ true
unfolding daily_key_leb
daily_key_leb_trans a b c p q = ground (
  arith,
  key_leb_trans a.key b.key c.key,
  key_leb_trans c.key a.key b.key,
  key_leb_trans b.key c.key a.key,
  text_leb_trans a.date_utc b.date_utc c.date_utc,
)

abbrev daily_record : DailyKey × TrafficCounters → DailyRecord
daily_record row = record { key = row.0.key; date_utc = row.0.date_utc; counters = row.1 }

-- `ListDaily` returns the rows of the interface in the range of dates, in the order of their keys
-- and, for one key, of their dates, with no error where no call of the driver fails, and changes
-- nothing.
pub list_daily_lem :
    (e : Engine) (start end filter : GoString) (s : Session)
    → Reads e (list_daily e start end filter) (select_daily start end filter s.committed) s
      × IsOrdered
          (λ a b.
            daily_key_leb
              (record { key = a.key; date_utc = a.date_utc })
              (record { key = b.key; date_utc = b.date_utc }))
          (select_daily start end filter s.committed)
unfolding select_daily
list_daily_lem e start end filter s = (
  list_daily-Reads e start end filter s,
  IsOrdered-map daily_record
      (λ a b.
        daily_key_leb (record { key = a.key; date_utc = a.date_utc })
          (record { key = b.key; date_utc = b.date_utc }))
      (sort_by (λ a b. daily_key_leb a.0 b.0)
        (keep (λ row. in_range start end filter row.0) s.committed.daily))
      (sort_by-IsOrdered (λ a b. daily_key_leb a.0 b.0) (λ x y. daily_key_leb_total x.0 y.0)
        (λ x y z. daily_key_leb_trans x.0 y.0 z.0)
        (keep (λ row. in_range start end filter row.0) s.committed.daily)),
)
