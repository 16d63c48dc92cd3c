-- ===== src/Config.antt =====
-- internal/config/config.go: the configuration, its defaults and its validation.
pub mod Laws
use wlt_traffic.Base.{
  ℕ, zero, suc, ◌≤◌, Bool, true, false, not, ◌&&◌, ◌||◌, Option, none, some, List, [], ◌∷◌, codes,
  leb, ite, if◌then◌else◌,
}
use wlt_traffic.Error.{Error, Result, ok, err, chain, staged, reading_config, parsing_config}
use wlt_traffic.Storage.Types.{GoString, GoString-discrete}
use wlt_traffic.Go.Strconv.{ℤ, pos, negsuc, atoi}
use wlt_traffic.Go.Address.{AddrError, Split, bad_address, host_port, split_host_port}
use wlt_traffic.Go.Blank.{is_blank}

pub record Config : Type 0 where
  pub interfaces : List GoString
  pub bind_address : GoString
  pub database_path : GoString
  pub flush_interval : ℤ
  pub housekeeping_interval : ℤ
  pub log_level : GoString
  pub allow_partial : Bool

-- `New()`
unfoldable pub default_config : Config
default_config = record {
  interfaces = [];
  bind_address = codes "127.0.0.1:8080";
  database_path = codes "./traffic-count.db";
  flush_interval = pos 10;
  housekeeping_interval = pos 3600;
  log_level = codes "info";
  allow_partial = false;
}

-- the messages of `Validate`
pub data ConfigError : Type 0 where
  no_interfaces empty_interface no_bind_address no_database_path : ConfigError
  invalid_address : AddrError → ConfigError
  not_loopback : GoString → ConfigError
  invalid_port : GoString → ConfigError
  port_out_of_range : ℤ → ConfigError
  bad_interval : ℤ → ConfigError
  bad_log_level : GoString → ConfigError

-- `s == text` on Go strings
abbrev is_same : GoString → GoString → Bool
is_same s text = ite (GoString-discrete s text) true false

unfoldable pub is_loopback : GoString → Bool
is_loopback host =
    is_same host (codes "127.0.0.1")
    || is_same host (codes "localhost")
    || is_same host (codes "::1")

-- `ValidLogLevels`, searched by the loop
unfoldable pub is_log_level : GoString → Bool
is_log_level level =
    is_same level (codes "debug")
    || is_same level (codes "info")
    || is_same level (codes "warn")
    || is_same level (codes "error")

-- the test of a round of the loop over the interfaces
unfoldable pub some_blank : List GoString → Bool
some_blank [] = false
some_blank (iface ∷ interfaces) = is_blank iface || some_blank interfaces

-- `port < 1 || port > 65535`
abbrev pub in_port_range : ℤ → Bool
in_port_range (negsuc n) = false
in_port_range (pos zero) = false
in_port_range (pos (suc n)) = leb (suc n) 65535

-- `c.FlushInterval > 0`
abbrev pub is_positive : ℤ → Bool
is_positive (pos (suc n)) = true
is_positive z = false

abbrev pub is_empty_text : GoString → Bool
is_empty_text [] = true
is_empty_text (c ∷ s) = false

abbrev pub no_interface : List GoString → Bool
no_interface [] = true
no_interface (s ∷ ss) = false

abbrev pub check_port : GoString → Option ℤ → Option ConfigError
check_port text none = some (invalid_port text)
check_port text (some port) = if in_port_range port then none else some (port_out_of_range port)

-- from `net.SplitHostPort` to the test of the port
abbrev pub check_split : Split → Option ConfigError
check_split (bad_address e) = some (invalid_address e)
check_split (host_port host port) =
    if not (is_loopback host) then some (not_loopback host) else check_port port (atoi port)

unfoldable pub check_address : GoString → Option ConfigError
unfolding split_host_port
check_address s = if is_empty_text s then some no_bind_address else check_split (split_host_port s)

-- what follows the checks of the address
unfoldable pub check_rest : Config → Option ConfigError
check_rest c =
    if is_empty_text c.database_path
    then some no_database_path
    else if not (is_positive c.flush_interval)
    then some (bad_interval c.flush_interval)
    else if not (is_log_level c.log_level)
    then some (bad_log_level c.log_level)
    else none

abbrev pub or_else : Option ConfigError → Option ConfigError → Option ConfigError
or_else none b = b
or_else (some e) b = some e

unfoldable pub validate_config : Config → Option ConfigError
unfolding some_blank check_address check_rest
validate_config c =
    if no_interface c.interfaces
    then some no_interfaces
    else if some_blank c.interfaces
    then some empty_interface
    else or_else (check_address c.bind_address) (check_rest c)

-- `os.ReadFile`, and `json.Unmarshal` onto a configuration
pub record Files : Type 0 where
  pub read_file : GoString → Result GoString
  pub unmarshal : GoString → Config → Result Config

module _ (files : Files) where
  unfoldable pub parse : GoString → Result Config
  parse text = staged parsing_config (files.unmarshal text default_config)

  unfoldable pub load_from_file : GoString → Result Config
  unfolding parse
  load_from_file path = chain (staged reading_config (files.read_file path)) parse

  unfoldable pub load : GoString → Result Config
  unfolding load_from_file
  load [] = ok default_config
  load (c ∷ path) = load_from_file (c ∷ path)
