-- ===== src/Runtime/Flush/Delta.antt =====
-- The arithmetic of a delta on uint64, and what its conversion to int64 lets through.
use wlt_traffic.Base.{ℕ, ◌^◌, ◌≤◌, ◌<◌, ◌≡◌, true, arith}
use wlt_traffic.Storage.Types.{TrafficCounters, zip_counters, no_traffic}
use wlt_traffic.Storage.Engine.{Engine, IsExact, int64_limit, fits_int64}
use wlt_traffic.Runtime.Flush.{sub64, is_idle}

-- every counter is an int64
pub record Fits (c : TrafficCounters) : Type 0 where
  pub bytes_fit : c.bytes < int64_limit
  pub packets_fit : c.packets < int64_limit
  pub ingress_bytes_fit : c.ingress_bytes < int64_limit
  pub ingress_packets_fit : c.ingress_packets < int64_limit
  pub egress_bytes_fit : c.egress_bytes < int64_limit
  pub egress_packets_fit : c.egress_packets < int64_limit

pub fits_int64-Fits : (c : TrafficCounters) → fits_int64 c ≡ true → Fits c
fits_int64-Fits c h = ground arith

pub Fits-fits_int64 : (c : TrafficCounters) → Fits c → fits_int64 c ≡ true
Fits-fits_int64 c h = ground arith

pub sub64_self : (a : ℕ) → a < 2 ^ 64 → sub64 a a ≡ 0
unfolding sub64
sub64_self a h = omega arith

sub64_fresh : (a : ℕ) → a < int64_limit → sub64 a 0 ≡ a
unfolding sub64
sub64_fresh a h = omega arith

-- a difference that is an int64 did not wrap
pub sub64_fits : (a b : ℕ) → a < int64_limit → b < int64_limit → sub64 a b < int64_limit → b ≤ a
unfolding sub64
sub64_fits a b p q h = omega arith

pub sub64_wraps : (a b : ℕ) → a < b → b < int64_limit → int64_limit < sub64 a b
unfolding sub64
sub64_wraps a b p q = omega arith

sub64_zero : (a b : ℕ) → a < int64_limit → b < int64_limit → sub64 a b ≡ 0 → b ≡ a
unfolding sub64
sub64_zero a b p q h = omega arith

pub sum-sub64 :
    (e : Engine)
    → IsExact e
    → (a b : ℕ) → a < int64_limit
    → b < int64_limit
    → sub64 a b < int64_limit
    → e.sum b (sub64 a b) ≡ a
unfolding sub64
sum-sub64 e x a b p q h = omega (arith, x.sum_exact b (sub64 a b) (omega arith))

module _ (raw last : TrafficCounters) (p : Fits raw) (q : Fits last) where
  -- adding the delta to the last counters gives the new ones
  pub catch_up :
      (e : Engine)
      → IsExact e
      → Fits (zip_counters sub64 raw last)
      → zip_counters e.sum last (zip_counters sub64 raw last) ≡ raw
  catch_up e x h i = record {
    bytes = sum-sub64 e x raw.bytes last.bytes p.bytes_fit q.bytes_fit h.bytes_fit i;
    packets = sum-sub64 e x raw.packets last.packets p.packets_fit q.packets_fit h.packets_fit i;
    ingress_bytes =
        sum-sub64 e x raw.ingress_bytes last.ingress_bytes p.ingress_bytes_fit q.ingress_bytes_fit
          h.ingress_bytes_fit i;
    ingress_packets =
        sum-sub64 e x raw.ingress_packets last.ingress_packets p.ingress_packets_fit
          q.ingress_packets_fit h.ingress_packets_fit i;
    egress_bytes =
        sum-sub64 e x raw.egress_bytes last.egress_bytes p.egress_bytes_fit q.egress_bytes_fit
          h.egress_bytes_fit i;
    egress_packets =
        sum-sub64 e x raw.egress_packets last.egress_packets p.egress_packets_fit
          q.egress_packets_fit h.egress_packets_fit i;
  }

  pub idle_unchanged : is_idle (zip_counters sub64 raw last) ≡ true → last ≡ raw
  idle_unchanged h = ground (
    arith,
    sub64_zero raw.bytes last.bytes,
    sub64_zero raw.packets last.packets,
    sub64_zero raw.ingress_bytes last.ingress_bytes,
    sub64_zero raw.ingress_packets last.ingress_packets,
    sub64_zero raw.egress_bytes last.egress_bytes,
    sub64_zero raw.egress_packets last.egress_packets,
  )

-- counters that did not move give no traffic
pub idle_self : (c : TrafficCounters) → Fits c → is_idle (zip_counters sub64 c c) ≡ true
idle_self c h = ground (
  arith,
  sub64_self c.bytes,
  sub64_self c.packets,
  sub64_self c.ingress_bytes,
  sub64_self c.ingress_packets,
  sub64_self c.egress_bytes,
  sub64_self c.egress_packets,
)

-- the delta since no traffic
pub delta_of_fresh : (c : TrafficCounters) → Fits c → zip_counters sub64 c no_traffic ≡ c
delta_of_fresh c h = ground (
  arith,
  sub64_fresh c.bytes,
  sub64_fresh c.packets,
  sub64_fresh c.ingress_bytes,
  sub64_fresh c.ingress_packets,
  sub64_fresh c.egress_bytes,
  sub64_fresh c.egress_packets,
)

-- no counter of the first is above that of the second
pub record NotAbove (a b : TrafficCounters) : Type 0 where
  pub bytes_le : a.bytes ≤ b.bytes
  pub packets_le : a.packets ≤ b.packets
  pub ingress_bytes_le : a.ingress_bytes ≤ b.ingress_bytes
  pub ingress_packets_le : a.ingress_packets ≤ b.ingress_packets
  pub egress_bytes_le : a.egress_bytes ≤ b.egress_bytes
  pub egress_packets_le : a.egress_packets ≤ b.egress_packets

sub64_le : (a b : ℕ) → a < int64_limit → b ≤ a → sub64 a b < int64_limit
unfolding sub64
sub64_le a b p q = omega arith

module _ (raw last : TrafficCounters) where
  pub delta-Fits : Fits raw → NotAbove last raw → Fits (zip_counters sub64 raw last)
  delta-Fits p q = record {
    bytes_fit = sub64_le raw.bytes last.bytes p.bytes_fit q.bytes_le;
    packets_fit = sub64_le raw.packets last.packets p.packets_fit q.packets_le;
    ingress_bytes_fit =
        sub64_le raw.ingress_bytes last.ingress_bytes p.ingress_bytes_fit q.ingress_bytes_le;
    ingress_packets_fit =
        sub64_le raw.ingress_packets last.ingress_packets p.ingress_packets_fit
          q.ingress_packets_le;
    egress_bytes_fit =
        sub64_le raw.egress_bytes last.egress_bytes p.egress_bytes_fit q.egress_bytes_le;
    egress_packets_fit =
        sub64_le raw.egress_packets last.egress_packets p.egress_packets_fit q.egress_packets_le;
  }

  -- a delta of int64 values shows that no counter went back
  pub Fits-NotAbove : Fits raw → Fits last → Fits (zip_counters sub64 raw last) → NotAbove last raw
  Fits-NotAbove p q h = record {
    bytes_le = sub64_fits raw.bytes last.bytes p.bytes_fit q.bytes_fit h.bytes_fit;
    packets_le = sub64_fits raw.packets last.packets p.packets_fit q.packets_fit h.packets_fit;
    ingress_bytes_le =
        sub64_fits raw.ingress_bytes last.ingress_bytes p.ingress_bytes_fit q.ingress_bytes_fit
          h.ingress_bytes_fit;
    ingress_packets_le =
        sub64_fits raw.ingress_packets last.ingress_packets p.ingress_packets_fit
          q.ingress_packets_fit h.ingress_packets_fit;
    egress_bytes_le =
        sub64_fits raw.egress_bytes last.egress_bytes p.egress_bytes_fit q.egress_bytes_fit
          h.egress_bytes_fit;
    egress_packets_le =
        sub64_fits raw.egress_packets last.egress_packets p.egress_packets_fit q.egress_packets_fit
          h.egress_packets_fit;
  }
