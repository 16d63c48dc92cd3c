-- ===== src/Examples/Testutil.antt =====
-- The test harness on a machine whose interfaces are a list of names.
use wlt_traffic.Base.{
  ℕ, ◌≡◌, ◌≢◌, refl, sym, ap, subst, ◌∙◌, true, false, Option, none, some, List, [], ◌∷◌, codes,
  AreDistinct, if◌then◌else◌, ℕ_discrete, arith,
}
use wlt_traffic.Runtime.Service.{
  start_service, start_loaded, new_service, attach_each, attach_one, after_attach, note_results,
  settle,
}
use wlt_traffic.Ebpf.Loader.{prepare_memlock, load_spec, load_traffic_objects, new_traffic_map}
use wlt_traffic.Ebpf.Attachment.{
  set_collection, attach_iface, attach_resolved, attach_option, attach_direction,
  set_direction_state, get_direction_state, get_iface_state, get_ingress, get_egress,
  new_attachment_manager,
}
use wlt_traffic.Ebpf.Attachment.Status.{is_iface_attached}
use wlt_traffic.Storage.Table.{find, upsert}
use wlt_traffic.Config.{default_config}
use wlt_traffic.Error.{Error, ok, err, driver}
use wlt_traffic.Storage.Types.{GoString, GoString-discrete}
use wlt_traffic.Http.Server.{is_text}
use wlt_traffic.Runtime.History.{empty_tables}
use wlt_traffic.Ebpf.Attachment.History.{idle}
use wlt_traffic.Testutil.Ip.{
  Command, add_dummy, add_veth, add_address, replace_neighbour, set_up, delete_link, Ip, IsIp,
  Deletes, Links, has_name,
}
use wlt_traffic.Testutil.Interfaces.{create_test_interface, create_test_interface_lem, IsCreated}
use wlt_traffic.Testutil.TempDb.{TempFiles, IsTempFiles}
use wlt_traffic.Testutil.Harness.{Harness, IsClean, start_daemon, start_daemon_links, test_config}
use wlt_traffic.Examples.Data.{quiet}
use wlt_traffic.Examples.Attachment.{calm, calm-closes, same_order, same_order-perm}
use wlt_traffic.Examples.Service.{objects}

unfoldable without : GoString → List GoString → List GoString
without name [] = []
without name (other ∷ names) =
    let rest = without name names in if is_text other name then rest else other ∷ rest

without_self :
    (name : GoString) (names : List GoString) → has_name name (without name names) ≡ false
unfolding without has_name
without_self name [] = refl
without_self name (other ∷ names) = ground (arith, without_self name names)

without_ne :
    (name other : GoString) (names : List GoString)
    → other ≢ name
    → has_name other (without name names) ≡ has_name other names
unfolding without has_name is_text
without_ne name other [] n = refl
without_ne name other (x ∷ names) n = ground (arith, without_ne name other names n)

has_name_cons :
    (name : GoString) (names : List GoString)
    → (has_name name (name ∷ names) ≡ true)
      × ((other : GoString) → other ≢ name → has_name other (name ∷ names) ≡ has_name other names)
unfolding has_name is_text
has_name_cons name names = (ground arith, λ other n. ground arith)

without_cons :
    (name : GoString) (names : List GoString)
    → has_name name names ≡ false
    → (other : GoString) → has_name other (without name (name ∷ names)) ≡ has_name other names
without_cons name names absent other = elim (GoString-discrete other name) [
  | yes p ↦
      ap (λ s. has_name s (without name (name ∷ names))) p
      ∙ without_self name (name ∷ names)
      ∙ sym absent
      ∙ ap (λ s. has_name s names) (sym p)
  | no n ↦ without_ne name other (name ∷ names) n ∙ (has_name_cons name names).1 other n
]

-- no interface can be set up
abbrev run_on : ℕ → Command → List GoString → Option Error × List GoString
run_on n (add_dummy name) names =
    if has_name name names then (some (driver 2), names) else (none, name ∷ names)
run_on n (set_up name) names = (some (driver 1), names)
run_on n (delete_link name) names =
    if has_name name names then (none, without name names) else (some (driver 1), names)
run_on n _ names = (none, names)

abbrev machine : Ip
machine = record { run_command = run_on; show_links = λ n names. ok [] }

run_on-fails :
    (n : ℕ) (c : Command) (names : List GoString) (x : Error)
    → (run_on n c names).0 ≡ some x
    → (run_on n c names).1 ≡ names
run_on-fails n (add_dummy name) names x h = ground arith
run_on-fails n (set_up name) names x h = refl
run_on-fails n (delete_link name) names x h = ground arith
run_on-fails n (add_veth host peer) names x h = refl
run_on-fails n (add_address a name) names x h = refl
run_on-fails n (replace_neighbour a m name) names x h = refl

without_absent :
    (name other : GoString) (names : List GoString)
    → has_name other names ≡ false
    → has_name other (without name names) ≡ false
without_absent name other names h = elim (GoString-discrete other name) [
  | yes p ↦ ap (λ s. has_name s (without name names)) p ∙ without_self name names
  | no n ↦ without_ne name other names n ∙ h
]

added_absent :
    (n : ℕ) (name : GoString) (names : List GoString)
    → (run_on n (add_dummy name) names).0 ≡ none
    → has_name name names ≡ false
added_absent n name names h = ground arith

machine-IsIp : IsIp machine
machine-IsIp = record {
  fails = run_on-fails;
  adds = λ n name names h. (
    ground arith,
    ground (arith, has_name_cons name names),
    λ other ne. ground (arith, (has_name_cons name names).1 other ne),
  );
  sets_up = λ n name names. refl;
  deletes = λ n name names h. (
    ground (arith, without_self name names),
    λ other absent. ground (arith, without_absent name other names absent),
  );
  undoes = λ n m name names h h' other. ground (
    arith,
    has_name_cons name names,
    without_cons name names (added_absent n name names h) other,
  );
}

machine-Deletes : Deletes machine
machine-Deletes n name names there = ground (arith, there)

abbrev links : Links
links = record { names = codes "lo" ∷ []; commands = 0 }

create_test_interface_lem_example :
    let (r, l') = create_test_interface machine (codes "dummy0") links in
    IsCreated machine (codes "dummy0") links r l'.names
create_test_interface_lem_example =
    create_test_interface_lem machine (codes "dummy0") links machine-IsIp machine-Deletes

-- the new file is always the same one
abbrev temp_name : GoString
temp_name = codes "/tmp/traffic-count-1.db"

abbrev temp_files : TempFiles
temp_files = record {
  create_temp = λ files.
      if has_name temp_name files
      then (err (driver 3), files)
      else (ok temp_name, temp_name ∷ files);
  remove_file = without;
}

created_name :
    (files : List GoString) (path : GoString)
    → (temp_files.create_temp files).0 ≡ ok path
    → (has_name temp_name files ≡ false) × (temp_name ≡ path)
created_name files path h = ground arith

temp_files-IsTempFiles : IsTempFiles temp_files
temp_files-IsTempFiles = record {
  creates = λ files path h.
      let (absent, same) = created_name files path h in
      (
        subst (λ z. has_name z files ≡ false) same absent,
        λ other n.
            ground (arith, absent, (has_name_cons temp_name files).1 other (λ q. n (q ∙ same))),
      );
  fails = λ files x h. ground arith;
  removes = λ files path. (without_self path files, λ other n. without_ne path other files n);
}

abbrev harness : Harness
harness = record {
  veth_pairs = [];
  daemon = none;
  config = test_config (codes "eth0") (codes "/tmp/test");
  repo = none;
  tmp_dir = codes "/tmp/test";
}

harness-AreDistinct : AreDistinct harness.config.interfaces
unfolding test_config
harness-AreDistinct = ground arith

harness_starts : (start_service calm objects (new_service harness.config [] (idle 0))).0 ≡ ok tt
unfolding start_service start_loaded new_service prepare_memlock load_spec load_traffic_objects
    new_traffic_map attach_each attach_one after_attach note_results settle set_collection
    attach_iface attach_resolved attach_option attach_direction set_direction_state
    get_direction_state get_iface_state get_ingress get_egress is_iface_attached
    new_attachment_manager find upsert GoString-discrete ℕ_discrete default_config test_config
harness_starts = refl

start_daemon_links_example :
    IsClean calm objects quiet same_order machine 3 0 1 harness links
      (start_daemon calm objects quiet same_order (idle 0) empty_tables harness)
start_daemon_links_example =
    start_daemon_links calm objects quiet same_order machine 3 0 1 harness links 0 empty_tables
      same_order-perm calm-closes harness-AreDistinct harness_starts
