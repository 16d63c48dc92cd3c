-- ===== src/Testutil/Interfaces.antt =====
-- The functions of testutil.go on the network interfaces of the machine.
use wlt_traffic.Base.{
  ℕ, zero, suc, ◌≡◌, ◌≢◌, refl, ap, sym, subst, true, false, Option, none, some, List, codes,
}
use wlt_traffic.Error.{Error, Result, ok, err, wrapped, done, creating_dummy, setting_up}
use wlt_traffic.Storage.Types.{GoString}
use wlt_traffic.Testutil.Ip.{
  Command, add_dummy, set_up, delete_link, add_address, replace_neighbour, Links, Ip, IsIp, Deletes,
  has_name,
}

module _ (ip : Ip) where
  -- `exec.Command("ip", …).Run()`
  unfoldable pub run_ip : Command → Links → Option Error × Links
  run_ip c l =
      let (exit, names) = ip.run_command l.commands c l.names in
      (exit, record { names = names; commands = suc l.commands })

  -- `SetupInterface`, which ignores what the commands return
  unfoldable pub setup_interface : GoString → Links → Result (Unit {0}) × Links
  setup_interface name l =
      (ok tt, (run_ip (add_address (codes "10.0.0.1/24") name) (run_ip (set_up name) l).1).1)

  abbrev up_or_gone : GoString → Option Error × Links → Result (Unit {0}) × Links
  up_or_gone name (none, l) = (ok tt, l)
  up_or_gone name (some x, l) = (err (wrapped setting_up x), (run_ip (delete_link name) l).1)

  abbrev added : GoString → Option Error × Links → Result (Unit {0}) × Links
  added name (some x, l) = (err (wrapped creating_dummy x), l)
  added name (none, l) = up_or_gone name (run_ip (set_up name) l)

  unfoldable pub create_test_interface : GoString → Links → Result (Unit {0}) × Links
  create_test_interface name l = added name (run_ip (add_dummy name) l)

  unfoldable pub delete_test_interface : GoString → Links → Result (Unit {0}) × Links
  delete_test_interface name l = let (exit, l') = run_ip (delete_link name) l in (done exit, l')

  unfoldable pub ensure_loopback_up : Links → Result (Unit {0}) × Links
  ensure_loopback_up l = let (exit, l') = run_ip (set_up (codes "lo")) l in (done exit, l')

  -- `SendTraffic`, whose commands send nothing
  unfoldable pub send_traffic : GoString → GoString → ℕ → Links → Result (Unit {0}) × Links
  send_traffic name mac zero l = (ok tt, l)
  send_traffic name mac (suc count) l =
      send_traffic name mac count (run_ip (replace_neighbour (codes "10.0.0.2") mac name) l).1

  module _ (name : GoString) (l : Links) where
    abbrev names_added : List GoString
    names_added = (ip.run_command l.commands (add_dummy name) l.names).1

    abbrev names_up : List GoString
    names_up = (ip.run_command (suc l.commands) (set_up name) names_added).1

    -- the same interfaces
    abbrev IsSame : List GoString → Type 0
    IsSame names = (other : GoString) → has_name other names ≡ has_name other l.names

    -- after a success the interface was added and no other one; after an error nothing is changed
    abbrev pub IsCreated : Result (Unit {0}) → List GoString → Type 0
    IsCreated (ok _) names =
        (has_name name l.names ≡ false)
        × (has_name name names ≡ true)
        × ((other : GoString) → other ≢ name → has_name other names ≡ has_name other l.names)
    IsCreated (err x) names = IsSame names

    module _ (documented : IsIp ip) (gone : Deletes ip) where
      set_up-IsCreated :
          (ip.run_command l.commands (add_dummy name) l.names).0 ≡ none
          → (exit : Option Error)
          → let (r, l') =
              up_or_gone name
                (exit, record { names = names_added; commands = suc (suc l.commands) }) in
            IsCreated r l'.names
      unfolding run_ip
      set_up-IsCreated good none = documented.adds l.commands name l.names good
      set_up-IsCreated good (some x) =
          let (absent, present, others) = documented.adds l.commands name l.names good in
          documented.undoes l.commands (suc (suc l.commands)) name l.names good
            (gone _ name names_added present)

      added-IsCreated :
          (exit : Option Error)
          → (ip.run_command l.commands (add_dummy name) l.names).0 ≡ exit
          → let (r, l') =
              added name (exit, record { names = names_added; commands = suc l.commands }) in
            IsCreated r l'.names
      unfolding run_ip
      added-IsCreated (some x) failed = λ other.
          ap (has_name other) (documented.fails l.commands (add_dummy name) l.names x failed)
      added-IsCreated none good =
          subst
            (λ names.
              let (r, l') = up_or_gone name (
                (ip.run_command (suc l.commands) (set_up name) names_added).0,
                record { names = names; commands = suc (suc l.commands) },
              ) in
              IsCreated r l'.names)
            (sym (documented.sets_up (suc l.commands) name names_added))
            (set_up-IsCreated good (ip.run_command (suc l.commands) (set_up name) names_added).0)

      -- If `ip` does what it documents, and an interface that is there can be deleted:
      -- `CreateTestInterface` adds the interface, which was not there, and no other one, and on an
      -- error leaves the interfaces as they were.
      pub create_test_interface_lem :
          let (r, l') = create_test_interface name l in IsCreated r l'.names
      unfolding create_test_interface run_ip
      create_test_interface_lem =
          added-IsCreated (ip.run_command l.commands (add_dummy name) l.names).0 refl
