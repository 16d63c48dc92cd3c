-- ===== src/Ebpf/TrafficMap.antt =====
-- internal/ebpf/ebpf.go and map.go: the keys and counters of the kernel's map, and the iterator.
-- The map itself belongs to the kernel: its two system calls are parameters.
use wlt_traffic.Base.{ℕ, zero, suc, Option, none, some, List, [], ◌∷◌}
use wlt_traffic.Error.{Error, Result, ok, err}
use wlt_traffic.Storage.Types.{Mac}

pub record TrafficKey : Type 0 where
  pub ifindex : ℕ  -- uint32
  pub mac : Mac

-- every field is a uint64
pub record TrafficCounter : Type 0 where
  pub bytes : ℕ
  pub packets : ℕ
  pub ingress_bytes : ℕ
  pub ingress_packets : ℕ
  pub egress_bytes : ℕ
  pub egress_packets : ℕ

-- `*ebpf.Map`, as it answers during one pass over it
pub record BpfMap : Type 0 where
  -- the key after the given one, or the first
  pub map_next_key : Option TrafficKey → Result TrafficKey
  pub map_lookup : TrafficKey → Result TrafficCounter

-- `*ebpf.Map` is nil in mock mode
pub record TrafficMap : Type 0 where
  pub m : Option BpfMap

unfoldable pub lookup : BpfMap → TrafficKey → Result TrafficCounter
lookup m key = m.map_lookup key

unfoldable pub next_key : BpfMap → Option TrafficKey → Result TrafficKey
next_key m prev = m.map_next_key prev

pub record MapIterator : Type 0 where
  pub curr_key : Option TrafficKey
  pub iter_err : Option Error

unfoldable pub iterate : MapIterator
iterate = record { curr_key = none; iter_err = none }

abbrev looked_up :
    MapIterator
    → TrafficKey
    → Result TrafficCounter
    → MapIterator × Option (TrafficKey × TrafficCounter)
looked_up mi key (err e) = (record mi { iter_err = some e }, none)
looked_up mi key (ok counter) = (record mi { curr_key = some key }, some (key, counter))

abbrev advanced :
    BpfMap → MapIterator → Result TrafficKey → MapIterator × Option (TrafficKey × TrafficCounter)
advanced m mi (err e) = (record mi { iter_err = some e }, none)
advanced m mi (ok key) = looked_up mi key (lookup m key)

-- `mi.Next()`: `none` for the result `false, nil, nil`
unfoldable pub next : BpfMap → MapIterator → MapIterator × Option (TrafficKey × TrafficCounter)
unfolding lookup next_key
next m mi = elim mi.iter_err [ some e ↦ (mi, none) | none ↦ advanced m mi (next_key m mi.curr_key) ]

-- the entries that the iterator returns in at most `fuel` rounds
unfoldable pub walk : BpfMap → ℕ → MapIterator → List (TrafficKey × TrafficCounter)
walk m zero mi = []
walk m (suc fuel) mi =
    let (mi', got) = next m mi in elim got [ none ↦ [] | some entry ↦ entry ∷ walk m fuel mi' ]
