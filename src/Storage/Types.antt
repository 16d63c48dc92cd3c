-- ===== src/Storage/Types.antt =====
-- The records of internal/storage/storage.go. A Go string is the list of its bytes. Columns
-- `updated_at` are left out: no statement under internal/ reads them.
use wlt_traffic.Base.{ℕ, List, ℕ_discrete}

abbrev pub GoString : Type 0
GoString = List ℕ

-- `[6]byte`
pub record Mac : Type 0 where
  pub b0 : ℕ
  pub b1 : ℕ
  pub b2 : ℕ
  pub b3 : ℕ
  pub b4 : ℕ
  pub b5 : ℕ

pub record RecordKey : Type 0 where
  pub interface_name : GoString
  pub ifindex : ℕ  -- uint32
  pub mac : Mac

-- every field is a uint64
pub record TrafficCounters : Type 0 where
  pub bytes : ℕ
  pub packets : ℕ
  pub ingress_bytes : ℕ
  pub ingress_packets : ℕ
  pub egress_bytes : ℕ
  pub egress_packets : ℕ

-- the primary key of mac_traffic_daily
pub record DailyKey : Type 0 where
  pub key : RecordKey
  pub date_utc : GoString

pub record Checkpoint : Type 0 where
  pub key : RecordKey
  pub date_utc : GoString
  pub last : TrafficCounters

pub record DailyRecord : Type 0 where
  pub key : RecordKey
  pub date_utc : GoString
  pub counters : TrafficCounters

pub record TotalRecord : Type 0 where
  pub key : RecordKey
  pub counters : TrafficCounters

-- the columns of collector_checkpoints that are not its primary key
pub record CheckpointRow : Type 0 where
  pub date_utc : GoString
  pub last : TrafficCounters

unfoldable pub GoString-discrete : Discrete GoString
unfolding ℕ_discrete
GoString-discrete = hlevel ℕ_discrete

unfoldable pub RecordKey-discrete : Discrete RecordKey
unfolding ℕ_discrete
RecordKey-discrete = hlevel ℕ_discrete

unfoldable pub DailyKey-discrete : Discrete DailyKey
unfolding ℕ_discrete
DailyKey-discrete = hlevel ℕ_discrete

-- an operation on every counter
abbrev pub zip_counters : (ℕ → ℕ → ℕ) → TrafficCounters → TrafficCounters → TrafficCounters
zip_counters f a b = record {
  bytes = f a.bytes b.bytes;
  packets = f a.packets b.packets;
  ingress_bytes = f a.ingress_bytes b.ingress_bytes;
  ingress_packets = f a.ingress_packets b.ingress_packets;
  egress_bytes = f a.egress_bytes b.egress_bytes;
  egress_packets = f a.egress_packets b.egress_packets;
}

abbrev pub no_traffic : TrafficCounters
no_traffic = record {
  bytes = 0;
  packets = 0;
  ingress_bytes = 0;
  ingress_packets = 0;
  egress_bytes = 0;
  egress_packets = 0;
}
