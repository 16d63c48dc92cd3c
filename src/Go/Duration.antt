-- ===== src/Go/Duration.antt =====
-- `time.Duration(n) * time.Second` of package time: an int64 number of nanoseconds, kept as its 64
-- bits.
use wlt_traffic.Base.{ℕ, suc, ◌-◌, ◌*◌, ◌%◌, ◌^◌, Bool, ◌&&◌, ltb}
use wlt_traffic.Calendar.{second}
use wlt_traffic.Go.Strconv.{ℤ, pos, negsuc}

unfoldable pub in_seconds : ℤ → ℕ
in_seconds (pos n) = (n * second) % 2 ^ 64
in_seconds (negsuc n) = (2 ^ 64 - (suc n * second) % 2 ^ 64) % 2 ^ 64

-- `time.NewTicker` panics unless the duration is positive
unfoldable pub is_tickable : ℕ → Bool
is_tickable bits = ltb 0 bits && ltb bits (2 ^ 63)
