-- ===== src/Go/Files.antt =====
-- `os.Stat` of package os.
use wlt_traffic.Base.{ℕ}
use wlt_traffic.Error.{Error}

pub data Stat : Type 0 where
  not_exist : Error → Stat
  unreadable : Error → Stat
  file_of_size : ℕ → Stat
