-- ===== src/Bootstrap.antt =====
-- internal/bootstrap/bootstrap.go: `Validator.Validate`. The three checks of the environment are
-- functions of the validator, as in the source; one that is nil is `none`.
pub mod Laws
pub mod Checks
use wlt_traffic.Base.{
  ℕ, zero, suc, ◌+◌, ◌-◌, Bool, true, false, Option, none, some, List, [], ◌∷◌, ◌++◌, length, ltb,
  ◌==◌, if◌then◌else◌,
}
use wlt_traffic.Error.{Error}
use wlt_traffic.Config.{Config}
use wlt_traffic.Storage.Types.{GoString}

-- `unset` is the empty string
pub data Mode : Type 0 where
  unset healthy degraded failed : Mode

pub record StartupResult : Type 0 where
  pub mode : Mode
  pub total_interfaces : ℕ
  pub attached_interfaces : List GoString
  pub failed_interfaces : List GoString
  pub attach_errors : List Error

pub data StartupError : Type 0 where
  no_interfaces zero_attached : StartupError
  no_capability : Error → StartupError
  -- this many of so many interfaces failed
  partly_failed : ℕ → ℕ → StartupError

pub record Validator : Type 0 where
  pub cfg : Config
  pub check_capability : Option (Option Error)
  pub check_interface : Option (GoString → Option Error)
  pub check_qdisc : Option (GoString → Option Error)

abbrev run_check : Option (GoString → Option Error) → GoString → Option Error
run_check none iface = none
run_check (some check) iface = check iface

abbrev or_else : Option Error → Option Error → Option Error
or_else none b = b
or_else (some x) b = some x

-- the error of the first check that fails
unfoldable pub check_iface : Validator → GoString → Option Error
check_iface v iface = or_else (run_check v.check_interface iface) (run_check v.check_qdisc iface)

-- a round of the loop, from the result and the counter `attached`
abbrev pub note_iface : GoString → Option Error → StartupResult × ℕ → StartupResult × ℕ
note_iface iface none (result, attached) = (
  record result { attached_interfaces = result.attached_interfaces ++ (iface ∷ []) },
  suc attached,
)
note_iface iface (some x) (result, attached) = (
  record result {
    failed_interfaces = result.failed_interfaces ++ (iface ∷ []);
    attach_errors = result.attach_errors ++ (x ∷ []);
  },
  attached,
)

unfoldable pub check_ifaces : Validator → List GoString → StartupResult × ℕ → StartupResult × ℕ
check_ifaces v [] state = state
check_ifaces v (iface ∷ ifaces) state =
    check_ifaces v ifaces (note_iface iface (check_iface v iface) state)

-- the end of `Validate`, after the loop
unfoldable pub startup_outcome : Config → StartupResult × ℕ → StartupResult × Option StartupError
startup_outcome cfg (result, attached) =
    if attached == 0
    then (record result { mode = failed }, some zero_attached)
    else if ltb attached (length cfg.interfaces)
    then (if cfg.allow_partial then (record result { mode = degraded }, none) else (
      record result { mode = failed },
      some (partly_failed (length cfg.interfaces - attached) (length cfg.interfaces)),
    ))
    else (record result { mode = healthy }, none)

abbrev pub initial_result : Config → StartupResult
initial_result cfg = record {
  mode = unset;
  total_interfaces = length cfg.interfaces;
  attached_interfaces = [];
  failed_interfaces = [];
  attach_errors = [];
}

abbrev pub capability : Option (Option Error) → Option Error
capability none = none
capability (some c) = c

unfoldable pub validate : Validator → StartupResult × Option StartupError
validate v =
    let result = initial_result v.cfg in
    let checked = startup_outcome v.cfg (check_ifaces v v.cfg.interfaces (result, 0)) in
    if length v.cfg.interfaces == 0
    then (result, some no_interfaces)
    else elim (capability v.check_capability) [
      | some x ↦ (record result { mode = failed }, some (no_capability x))
      | none ↦ checked
    ]
