-- ===== src/Bootstrap/Checks.antt =====
-- The checks of the environment in internal/bootstrap/bootstrap.go, and `NewValidator`, which puts
-- them into the validator.
use wlt_traffic.Base.{ℕ, ◌≡◌, ◌≢◌, ◌⊎◌, Option, none, some, ◌++◌, codes, ◌==◌, if◌then◌else◌, arith}
use wlt_traffic.Error.{
  Error, wrapped, root_required, interface_missing, checking_interface, checking_qdisc,
}
use wlt_traffic.Config.{Config}
use wlt_traffic.Storage.Types.{GoString}
use wlt_traffic.Go.Files.{Stat, not_exist, unreadable, file_of_size}
use wlt_traffic.Bootstrap.{unset, failed, Validator, StartupError, validate}

-- what the checks ask
pub record System : Type 0 where
  -- `os.Getuid`
  pub uid : ℕ
  pub stat_path : GoString → Stat
  -- the error of `tc qdisc show dev <iface>`
  pub tc_qdisc_show : GoString → Option Error

-- `realCheckCapabilities`
unfoldable pub check_capabilities : System → Option Error
check_capabilities sys = if sys.uid == 0 then none else some root_required

-- `realValidateInterface`
unfoldable pub validate_interface : System → GoString → Option Error
validate_interface sys iface = elim (sys.stat_path (codes "/sys/class/net/" ++ iface)) [
  | not_exist x ↦ some interface_missing
  | unreadable x ↦ some (wrapped checking_interface x)
  | file_of_size n ↦ none
]

-- `realCheckQdisc`
unfoldable pub check_qdisc_of : System → GoString → Option Error
check_qdisc_of sys iface = elim (sys.tc_qdisc_show iface) [
  | none ↦ none
  | some x ↦ some (wrapped checking_qdisc x)
]

unfoldable pub new_validator : System → Config → Validator
new_validator sys cfg = record {
  cfg = cfg;
  check_capability = some (check_capabilities sys);
  check_interface = some (validate_interface sys);
  check_qdisc = some (check_qdisc_of sys);
}

-- `AttachCheck`
unfoldable pub attach_check : Validator → Option StartupError
attach_check v = (validate v).1

-- without the capability the mode is failed, or not set where no interface is configured
pub validate-incapable :
    (sys : System) (cfg : Config)
    → sys.uid ≢ 0
    → ((validate (new_validator sys cfg)).0.mode ≡ failed)
      ⊎ ((validate (new_validator sys cfg)).0.mode ≡ unset)
unfolding validate new_validator check_capabilities
validate-incapable sys cfg h = ground (arith, h)
