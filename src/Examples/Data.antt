-- ===== src/Examples/Data.antt =====
-- The concrete inputs: an engine with no faults, a map with two keys, and a new database.
use wlt_traffic.Base.{
  ℕ, refl, ◌+◌, Bool, Option, none, some, List, [], ◌∷◌, codes, ◌==◌, if◌then◌else◌,
}
use wlt_traffic.Error.{Result, ok, err, driver}
use wlt_traffic.Storage.Types.{GoString, Mac}
use wlt_traffic.Storage.Engine.{Engine, IsExact, IsReliable}
use wlt_traffic.Ebpf.TrafficMap.{TrafficKey, TrafficCounter, BpfMap}
use wlt_traffic.Runtime.Flush.{FlushLoop}
use wlt_traffic.Runtime.Flush.Account.{Entry}
use wlt_traffic.Runtime.History.{new_session}

abbrev pub quiet : Engine
quiet = record { fault = λ n. none; sum = ◌+◌ }

pub quiet-IsExact : IsExact quiet
quiet-IsExact = record { sum_exact = λ a b h. refl }

pub quiet-IsReliable : IsReliable quiet
quiet-IsReliable = record { no_fault = λ n. refl }

-- the fifth call of the driver fails
abbrev pub failing : Engine
failing = record { fault = λ n. if n == 4 then some 5 else none; sum = ◌+◌ }

abbrev pub mac_1 : Mac
mac_1 = record { b0 = 170; b1 = 187; b2 = 204; b3 = 221; b4 = 238; b5 = 255 }

abbrev pub key_1 : TrafficKey
key_1 = record { ifindex = 2; mac = mac_1 }

abbrev pub key_2 : TrafficKey
key_2 = record { ifindex = 3; mac = mac_1 }

abbrev pub counter_of : ℕ → ℕ → TrafficCounter
counter_of n k = record {
  bytes = n;
  packets = k;
  ingress_bytes = n;
  ingress_packets = k;
  egress_bytes = 0;
  egress_packets = 0;
}

abbrev pub entry_1 : Entry
entry_1 = (key_1, counter_of 1500 3)

abbrev pub entry_2 : Entry
entry_2 = (key_2, counter_of 60 1)

abbrev pub entries : List Entry
entries = entry_1 ∷ entry_2 ∷ []

abbrev key_after : Option TrafficKey → Result TrafficKey
key_after none = ok key_1
key_after (some k) = if k.ifindex == 2 then ok key_2 else err (driver 2)

abbrev pub kernel : BpfMap
kernel = record {
  map_next_key = key_after;
  map_lookup = λ k. ok (if k.ifindex == 2 then entry_1.1 else entry_2.1);
}

abbrev pub new_loop : FlushLoop
new_loop = record {
  repo = new_session;
  traffic_map = some (record { m = some kernel });
  interval = 10_000_000_000;
  last_flush = none;
  flush_err = none;
  stopped = Bool.false;
}

abbrev pub day_1 : GoString
day_1 = codes "1970-01-01"

abbrev pub day_2 : GoString
day_2 = codes "1970-01-02"
