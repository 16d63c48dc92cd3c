-- ===== src/Config/Laws.antt =====
-- The configurations that `Validate` accepts.
use wlt_traffic.Base.{
  ℕ, zero, suc, ◌≤◌, ◌≡◌, ◌≢◌, ◌↔◌, ◌⊎◌, inl, inr, refl, ap, true, false, Option, none, some, List,
  [], ◌∷◌, All, codes, arith, Bool-cases,
}
use wlt_traffic.Storage.Types.{GoString}
use wlt_traffic.Go.Strconv.{ℤ, pos, negsuc, atoi}
use wlt_traffic.Go.Blank.{is_blank}
use wlt_traffic.Go.Address.{Split, bad_address, host_port, split_host_port}
use wlt_traffic.Go.Address.Laws.{IsAddress, plain, in_brackets, split_host_port_iff}
use wlt_traffic.Config.{
  Config, is_loopback, is_log_level, some_blank, in_port_range, is_positive, is_empty_text,
  check_port, check_split, check_address, check_rest, validate_config,
}

-- the loopback hosts
abbrev pub IsLoopback : GoString → Type 0
IsLoopback host = (host ≡ codes "127.0.0.1") ⊎ (host ≡ codes "localhost") ⊎ (host ≡ codes "::1")

abbrev pub IsLogLevel : GoString → Type 0
IsLogLevel level =
    (level ≡ codes "debug")
    ⊎ (level ≡ codes "info")
    ⊎ (level ≡ codes "warn")
    ⊎ (level ≡ codes "error")

-- a loopback host with the number of a port
pub record IsListenable (s : GoString) : Type 0 where
  pub host : GoString
  pub port : GoString
  pub number : ℕ
  pub address : IsAddress s host port
  pub loopback : IsLoopback host
  pub numeral : atoi port ≡ some (pos number)
  pub positive : 1 ≤ number
  pub bounded : number ≤ 65535

pub record IsValid (c : Config) : Type 0 where
  pub some_interface : c.interfaces ≢ []
  pub named : All (λ iface. is_blank iface ≡ false) c.interfaces
  pub listenable : IsListenable c.bind_address
  pub stored : c.database_path ≢ []
  pub seconds : ℕ
  pub flushed : (c.flush_interval ≡ pos seconds) × (1 ≤ seconds)
  pub level : IsLogLevel c.log_level

is_loopback_iff : (host : GoString) → (is_loopback host ≡ true) ↔ IsLoopback host
unfolding is_loopback
is_loopback_iff host = ground arith

is_log_level_iff : (level : GoString) → (is_log_level level ≡ true) ↔ IsLogLevel level
unfolding is_log_level
is_log_level_iff level = ground arith

some_blank_iff :
    (names : List GoString)
    → (some_blank names ≡ false) ↔ All (λ iface. is_blank iface ≡ false) names
unfolding some_blank
some_blank_iff [] = ground arith
some_blank_iff (name ∷ names) = ground (arith, some_blank_iff names)

in_port_range_lem : (z : ℤ) → in_port_range z ≡ true → (n : ℕ) × (z ≡ pos n) × (1 ≤ n) × (n ≤ 65535)
in_port_range_lem (negsuc n) h = ground (arith, h)
in_port_range_lem (pos zero) h = ground (arith, h)
in_port_range_lem (pos (suc n)) h = (suc n, refl, omega arith, ground (arith, h))

in_port_range-pos : (n : ℕ) → 1 ≤ n → n ≤ 65535 → in_port_range (pos n) ≡ true
in_port_range-pos zero p q = ground (arith, p)
in_port_range-pos (suc n) p q = ground (arith, q)

check_port-none :
    (text : GoString) (o : Option ℤ)
    → check_port text o ≡ none
    → (n : ℕ) × (o ≡ some (pos n)) × (1 ≤ n) × (n ≤ 65535)
check_port-none text none h = ground (arith, h)
check_port-none text (some z) h =
    let (n, e, p, q) = in_port_range_lem z (ground (arith, h)) in (n, ap some e, p, q)

-- the answer of `net.SplitHostPort` passes the checks
check_split-IsListenable :
    (s : GoString) (r : Split) → split_host_port s ≡ r → check_split r ≡ none → IsListenable s
check_split-IsListenable s (bad_address e) q h = ground (arith, h)
check_split-IsListenable s (host_port host port) q h = elim (Bool-cases (is_loopback host)) [
  | inr l ↦ ground (arith, h, l)
  | inl l ↦
      let (n, e, a, b) = check_port-none port (atoi port) (ground (arith, h, l)) in
      record {
        host = host;
        port = port;
        number = n;
        address = (split_host_port_iff s host port).0 q;
        loopback = (is_loopback_iff host).0 l;
        numeral = e;
        positive = a;
        bounded = b;
      }
]

-- an address has a colon
address-some : (s host port : GoString) → IsAddress s host port → is_empty_text s ≡ false
address-some s [] port (plain e h p) = ground (arith, e)
address-some s (c ∷ host) port (plain e h p) = ground (arith, e)
address-some s host port (in_brackets e h p) = ground (arith, e)

check_address_iff : (s : GoString) → (check_address s ≡ none) ↔ IsListenable s
unfolding check_address
check_address_iff s = (to, from)
  where
    to : check_address s ≡ none → IsListenable s
    to h = check_split-IsListenable s (split_host_port s) refl (ground (arith, h))

    from : IsListenable s → check_address s ≡ none
    from l =
        rw
          (
            address-some s l.host l.port l.address,
            (split_host_port_iff s l.host l.port).1 l.address,
          )
          (ground (
            arith,
            (is_loopback_iff l.host).1 l.loopback,
            l.numeral,
            in_port_range-pos l.number l.positive l.bounded,
          ))

positive_iff : (z : ℤ) → (is_positive z ≡ true) ↔ ((n : ℕ) × (z ≡ pos n) × (1 ≤ n))
positive_iff (negsuc n) = (λ h. ground (arith, h), λ (m, e, p). ground (arith, e))
positive_iff (pos zero) = (λ h. ground (arith, h), λ (m, e, p). ground (arith, e, p))
positive_iff (pos (suc n)) = (λ h. (suc n, refl, omega arith), λ t. refl)

-- `Validate` accepts exactly the configurations that name some interfaces and no blank one, listen
-- on a loopback host and a port from 1 to 65535, and have a database, a positive flush interval
-- and one of the four log levels.
pub validate_config_iff : (c : Config) → (validate_config c ≡ none) ↔ IsValid c
unfolding validate_config check_rest
validate_config_iff c = (to, from)
  where
    to : validate_config c ≡ none → IsValid c
    to h =
        let blank : some_blank c.interfaces ≡ false = ground (arith, h) in
        let address : check_address c.bind_address ≡ none = ground (arith, h) in
        let positive : is_positive c.flush_interval ≡ true = ground (arith, h) in
        let level : is_log_level c.log_level ≡ true = ground (arith, h) in
        let (n, e, p) = (positive_iff c.flush_interval).0 positive in
        record {
          some_interface = λ e. ground (arith, h, e);
          named = (some_blank_iff c.interfaces).0 blank;
          listenable = (check_address_iff c.bind_address).0 address;
          stored = λ e. ground (arith, h, e);
          seconds = n;
          flushed = (e, p);
          level = (is_log_level_iff c.log_level).0 level;
        }

    from : IsValid c → validate_config c ≡ none
    from v =
        let blank = (some_blank_iff c.interfaces).1 v.named in
        let address = (check_address_iff c.bind_address).1 v.listenable in
        let positive = (positive_iff c.flush_interval).1 (v.seconds, v.flushed.0, v.flushed.1) in
        let level = (is_log_level_iff c.log_level).1 v.level in
        ground (arith, v.some_interface, blank, address, v.stored, positive, level)
