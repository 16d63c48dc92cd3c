-- ===== src/Runtime/History.antt =====
-- What happens to the database while the service runs, as cmd/traffic-count/main.go starts it: the
-- flush loop and the housekeeping loop take their turns, time passes, and the service is stopped
-- and started again on the same file. The kernel's map is another one at every flush.
pub mod Invariant
use wlt_traffic.Base.{ℕ, ◌≤◌, ◌≡◌, Option, none, some, [], ◌∷◌}
use wlt_traffic.Storage.Engine.{Engine, Session, Tables, rollback}
use wlt_traffic.Runtime.Flush.{FlushLoop, flush}
use wlt_traffic.Runtime.Housekeeping.{HousekeepingLoop, run_once}

pub record World : Type 0 where
  pub db : Session
  pub now : ℕ

abbrev pub empty_tables : Tables
empty_tables = record { totals = []; daily = []; checkpoints = [] }

-- the file as `storage.New` leaves it the first time
abbrev pub new_session : Session
new_session = record { committed = empty_tables; pending = none; calls = 0 }

pub data Step (e : Engine) (w : World) : World → Type 0 where
  -- a tick of the flush loop, or the final flush, successful or not
  flushed :
      (f : FlushLoop) (fuel finished : ℕ) {s : Session}
      → f.repo ≡ w.db
      → w.now ≤ finished
      → (flush e fuel w.now finished f).1.repo ≡ s
      → Step e w (record { db = s; now = finished })
  -- a run of the housekeeping loop, successful or not
  housekept :
      (h : HousekeepingLoop) (later : ℕ) {s : Session}
      → h.repo ≡ some w.db
      → w.now ≤ later
      → (run_once e w.now later h).1.repo ≡ some s
      → Step e w (record { db = s; now = later })
  waited : (later : ℕ) → w.now ≤ later → Step e w (record { db = w.db; now = later })
  restarted : Step e w (record { db = rollback w.db; now = w.now })

pub data Reach (e : Engine) (w : World) : World → Type 0 where
  here : Reach e w w
  next : {u v : World} → Reach e w u → Step e u v → Reach e w v
