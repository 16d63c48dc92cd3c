-- ===== src/Examples/Startup.antt =====
-- Startup checks of three interfaces, of which one is missing.
use wlt_traffic.Base.{
  ◌≡◌, ◌≢◌, ◌↔◌, refl, ◌==◌, if◌then◌else◌, Bool, none, some, [], ◌∷◌, length, codes, arith,
}
use wlt_traffic.Base.Sort.{keep}
use wlt_traffic.Error.{driver}
use wlt_traffic.Config.{Config, default_config}
use wlt_traffic.Bootstrap.{failed, Validator, validate}
use wlt_traffic.Bootstrap.Laws.{passes, mode_for, validate_mode}

abbrev three : Config
three = record default_config {
  interfaces = codes "lo" ∷ codes "eth0" ∷ codes "wlan0" ∷ [];
  allow_partial = Bool.true;
}

-- names of four bytes are there
abbrev checks : Validator
checks = record {
  cfg = three;
  check_capability = some none;
  check_interface = some (λ iface. if length iface == 4 then none else some (driver 1));
  check_qdisc = some (λ iface. none);
}

three_interfaces : checks.cfg.interfaces ≢ []
three_interfaces = ground arith

validate_mode_example :
    ((validate checks).0.mode ≡ mode_for checks (length (keep (passes checks) three.interfaces)))
    × (((validate checks).1 ≢ none) ↔ ((validate checks).0.mode ≡ failed))
validate_mode_example = validate_mode checks three_interfaces refl
