-- ===== src/Ebpf/Link.antt =====
-- What internal/ebpf/attachment.go calls: `net.InterfaceByName`, and `AttachTCX` and `Close` of
-- cilium's package link. The kernel is a parameter, whose answers depend on how often it was called.
use wlt_traffic.Base.{ℕ, Option, List}
use wlt_traffic.Error.{Error, Result}
use wlt_traffic.Storage.Types.{GoString}

pub data Direction : Type 0 where
  direction_ingress direction_egress : Direction

-- `*ebpf.Program`
abbrev pub Program : Type 0
Program = ℕ

-- `link.Link`: the call of `AttachTCX` that made it
abbrev pub Link : Type 0
Link = ℕ

pub record Kernel : Type 0 where
  -- the index of an interface, or the error of the lookup
  pub interface_by_name : ℕ → GoString → Result ℕ
  -- `none`: the program is attached
  pub attach_tcx : ℕ → ℕ → Direction → Program → Option Error
  -- `none`: the link is closed
  pub close_link : ℕ → Link → Option Error

-- the calls so far, and the links that the kernel holds
pub record Net : Type 0 where
  pub calls : ℕ
  pub links : List Link
