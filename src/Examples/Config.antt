-- ===== src/Examples/Config.antt =====
-- Configurations that `Validate` accepts and rejects.
use wlt_traffic.Base.{ℕ_discrete, ◌≡◌, ◌↔◌, refl, none, some, codes}
use wlt_traffic.Config.{
  Config, not_loopback, default_config, validate_config, is_loopback, is_log_level, some_blank,
  check_address, check_rest,
}
use wlt_traffic.Config.Laws.{IsValid, validate_config_iff}
use wlt_traffic.Storage.Types.{GoString-discrete}
use wlt_traffic.Go.Address.{split_host_port, cut_first, cut_last, occurs}
use wlt_traffic.Go.Blank.{is_blank, blank_from}
use wlt_traffic.Go.Strconv.{atoi, digits, digits_from}
use wlt_traffic.Examples.Service.{two_interfaces}

validate_config_iff_example : (validate_config two_interfaces ≡ none) ↔ IsValid two_interfaces
validate_config_iff_example = validate_config_iff two_interfaces

pub two-accepted : validate_config two_interfaces ≡ none
unfolding validate_config default_config some_blank is_blank blank_from check_address
    split_host_port cut_last cut_first occurs is_loopback atoi digits digits_from check_rest
    is_log_level GoString-discrete ℕ_discrete
two-accepted = refl

-- an address that is not loopback, and no interval
abbrev open_to_all : Config
open_to_all = record two_interfaces { bind_address = codes "0.0.0.0:8080" }

open_to_all-rejected : validate_config open_to_all ≡ some (not_loopback (codes "0.0.0.0"))
unfolding validate_config default_config some_blank is_blank blank_from check_address
    split_host_port cut_last cut_first occurs is_loopback GoString-discrete ℕ_discrete
open_to_all-rejected = refl
