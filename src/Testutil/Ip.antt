-- ===== src/Testutil/Ip.antt =====
-- The command `ip` as testutil.go runs it, and what it documents of the names of interfaces.
use wlt_traffic.Base.{ℕ, ◌≡◌, ◌≢◌, Bool, true, false, ◌||◌, Option, none, some, List, [], ◌∷◌}
use wlt_traffic.Error.{Error, Result}
use wlt_traffic.Storage.Types.{GoString}
use wlt_traffic.Http.Server.{is_text}

pub data Command : Type 0 where
  -- `ip link add HOST type veth peer name PEER`
  add_veth : GoString → GoString → Command
  -- `ip link add NAME type dummy`
  add_dummy : GoString → Command
  -- `ip link set NAME up`, and `ip link del NAME`
  set_up delete_link : GoString → Command
  -- `ip addr add ADDRESS dev NAME`
  add_address : GoString → GoString → Command
  -- `ip neigh replace ADDRESS lladdr MAC dev NAME`
  replace_neighbour : GoString → GoString → GoString → Command

-- the names of the interfaces, and the commands so far
pub record Links : Type 0 where
  pub names : List GoString
  pub commands : ℕ

pub record Ip : Type 0 where
  -- `none`: exit status 0; then the names after the command
  pub run_command : ℕ → Command → List GoString → Option Error × List GoString
  -- the output of `ip -o link show`
  pub show_links : ℕ → List GoString → Result GoString

-- the interface is there
unfoldable pub has_name : GoString → List GoString → Bool
has_name name [] = false
has_name name (other ∷ names) = is_text other name || has_name name names

-- what `ip link` documents
pub record IsIp (ip : Ip) : Type 0 where
  -- a command that fails changes nothing
  pub fails :
      (n : ℕ) (c : Command) (names : List GoString) (x : Error)
      → (ip.run_command n c names).0 ≡ some x
      → (ip.run_command n c names).1 ≡ names
  -- an interface is added once
  pub adds :
      (n : ℕ) (name : GoString) (names : List GoString)
      → (ip.run_command n (add_dummy name) names).0 ≡ none
      → (has_name name names ≡ false)
        × (has_name name (ip.run_command n (add_dummy name) names).1 ≡ true)
        × ((other : GoString)
            → other ≢ name
            → has_name other (ip.run_command n (add_dummy name) names).1 ≡ has_name other names)
  pub sets_up :
      (n : ℕ) (name : GoString) (names : List GoString)
      → (ip.run_command n (set_up name) names).1 ≡ names
  -- the interface goes, and no other comes
  pub deletes :
      (n : ℕ) (name : GoString) (names : List GoString)
      → (ip.run_command n (delete_link name) names).0 ≡ none
      → (has_name name (ip.run_command n (delete_link name) names).1 ≡ false)
        × ((other : GoString)
            → has_name other names ≡ false
            → has_name other (ip.run_command n (delete_link name) names).1 ≡ false)
  -- a dummy interface has no peer that goes with it
  pub undoes :
      (n m : ℕ) (name : GoString) (names : List GoString)
      → let added = (ip.run_command n (add_dummy name) names).1 in
        (ip.run_command n (add_dummy name) names).0 ≡ none
        → (ip.run_command m (delete_link name) added).0 ≡ none
        → (other : GoString)
        → has_name other (ip.run_command m (delete_link name) added).1 ≡ has_name other names

-- an interface that is there can be deleted
abbrev pub Deletes : Ip → Type 0
Deletes ip =
    (n : ℕ) (name : GoString) (names : List GoString)
    → has_name name names ≡ true
    → (ip.run_command n (delete_link name) names).0 ≡ none
