-- ===== src/Testutil/Harness.antt =====
-- `Harness` and `DaemonHandle` of testutil.go: a configuration in a temporary directory, pairs of
-- interfaces, and the service with its flush loop and server.
use mathlib.Core.List.{Permᴰ}
use mathlib.Core.Option
use wlt_traffic.Base.{
  ap, ℕ, ◌≡◌, refl, true, Option, none, some, List, [], ◌∷◌, ◌++◌, AreDistinct, codes,
}
use wlt_traffic.Error.{
  Result, ok, err, wrapped, creating_temp_dir, starting_service, creating_repository,
  starting_flush_loop,
}
use wlt_traffic.Config.{Config, default_config}
use wlt_traffic.Go.Strconv.{pos}
use wlt_traffic.Storage.Types.{GoString}
use wlt_traffic.Storage.Engine.{Engine, Session, Tables}
use wlt_traffic.Storage.Open.{open_repository}
use wlt_traffic.Ebpf.Link.{Kernel, Net}
use wlt_traffic.Ebpf.Loader.{Objects}
use wlt_traffic.Ebpf.Attachment.Moves.{CloseFault}
use wlt_traffic.Ebpf.Attachment.History.{idle}
use wlt_traffic.Runtime.Flush.{FlushLoop, new_flush_loop}
use wlt_traffic.Runtime.Flush.Lifecycle.{start_flush, stop_flush}
use wlt_traffic.Runtime.Service.{Service, new_service, start_service, stop_service}
use wlt_traffic.Runtime.Service.Report.{service_map}
use wlt_traffic.Http.Routes.{Server, new_server}
use wlt_traffic.Main.Shutdown.{started_stop}
use wlt_traffic.Testutil.Ip.{add_veth, delete_link, Links, Ip}
use wlt_traffic.Testutil.Interfaces.{run_ip}

pub record VethPair : Type 0 where
  pub host_name : GoString
  -- the bytes of a `net.HardwareAddr`
  pub host_mac : List ℕ
  pub peer_name : GoString
  pub peer_mac : List ℕ
  pub peer_ip : GoString

-- the repository is that of the flush loop
pub record DaemonHandle : Type 0 where
  pub service : Service
  pub server : Server
  pub flush_loop : FlushLoop
  pub tmp_dir : GoString

pub record Harness : Type 0 where
  pub veth_pairs : List VethPair
  -- `none` for nil
  pub daemon : Option DaemonHandle
  pub config : Config
  pub repo : Option Session
  pub tmp_dir : GoString

-- the configuration of a test
unfoldable pub test_config : GoString → GoString → Config
test_config iface_name tmp_dir = record default_config {
  interfaces = iface_name ∷ [];
  database_path = tmp_dir ++ codes "/traffic-count.db";
  flush_interval = pos 1;
  allow_partial = true;
}

-- `NewHarness`, with the answer of `os.MkdirTemp`
unfoldable pub new_harness : Result GoString → GoString → Result Harness
new_harness (err x) iface_name = err (wrapped creating_temp_dir x)
new_harness (ok tmp_dir) iface_name = ok (record {
  veth_pairs = [];
  daemon = none;
  config = test_config iface_name tmp_dir;
  repo = none;
  tmp_dir = tmp_dir;
})

-- `GetRepo`, `GetService` and `GetConfig`
unfoldable pub get_repo : Harness → Option Session
get_repo h = h.repo

unfoldable pub get_service : Harness → Option Service
get_service h = elim h.daemon [ none ↦ none | some d ↦ some d.service ]

unfoldable pub get_config : Harness → Config
get_config h = h.config

module _ (ip : Ip) (parse_mac : GoString → Result (List ℕ)) where
  abbrev with_macs :
      GoString → Result (List ℕ) → Result (List ℕ) → Harness → Result VethPair × Harness
  with_macs prefix (err x) peer h = (err x, h)
  with_macs prefix (ok host) (err x) h = (err x, h)
  with_macs prefix (ok host) (ok peer) h =
      let pair : VethPair = record {
        host_name = prefix ++ codes "-host";
        host_mac = host;
        peer_name = prefix ++ codes "-peer";
        peer_mac = peer;
        peer_ip = codes "10.0.0.2/24";
      } in
      (ok pair, record h { veth_pairs = h.veth_pairs ++ (pair ∷ []) })

  -- `CreateVethPair`, which ignores what `ip` returns and gives two fixed addresses
  unfoldable pub create_veth_pair : GoString → Harness → Links → Result VethPair × Harness × Links
  create_veth_pair prefix h l =
      let (r, h') =
        with_macs prefix (parse_mac (codes "aa:bb:cc:dd:ee:01"))
          (parse_mac (codes "aa:bb:cc:dd:ee:02")) h in
      (r, h', (run_ip ip (add_veth (prefix ++ codes "-host") (prefix ++ codes "-peer")) l).1)

unfoldable pub delete_pairs : Ip → List VethPair → Links → Links
delete_pairs ip [] l = l
delete_pairs ip (pair ∷ pairs) l =
    delete_pairs ip pairs (run_ip ip (delete_link pair.host_name) l).1

-- `h.daemon = &DaemonHandle{…}`
unfoldable pub with_daemon : Result DaemonHandle → Harness → Harness
with_daemon (err x) h = h
with_daemon (ok d) h = record h { daemon = some d }

module _ (k : Kernel) (o : Objects) (e : Engine) (order : List GoString → List GoString) where
  -- what a start leaves: a daemon or an error, and the service as it is then
  abbrev pub Started : Type 0
  Started = Result DaemonHandle × Service

  abbrev pub loop_begun : Harness → Service → Result (Unit {0}) × FlushLoop → Started
  loop_begun h svc (err x, f) = (err (wrapped starting_flush_loop x), stop_service k order svc)
  loop_begun h svc (ok _, f) = (
    ok (record {
      service = svc;
      server = new_server h.config svc f.repo f;
      flush_loop = f;
      tmp_dir = h.tmp_dir;
    }),
    svc,
  )

  abbrev pub database_opened : Harness → Service → Result Session → Started
  database_opened h svc (err x) = (err (wrapped creating_repository x), stop_service k order svc)
  database_opened h svc (ok repo) =
      loop_begun h svc
        (start_flush e (new_flush_loop repo (service_map svc) h.config.flush_interval))

  abbrev pub service_started : Harness → Tables → Result (Unit {0}) × Service → Started
  service_started h file (err x, svc) = (err (wrapped starting_service x), svc)
  service_started h file (ok _, svc) = database_opened h svc (open_repository e file)

  -- `StartDaemon`, with what the database file holds
  unfoldable pub start_daemon : Net → Tables → Harness → Started
  start_daemon net file h = service_started h file (start_service k o (new_service h.config [] net))

module _ (k : Kernel) (e : Engine) (order : List GoString → List GoString) where
  -- the daemon in `Cleanup`: the errors of `Stop` and `Close` are ignored
  unfoldable pub stop_daemon : ℕ → ℕ → ℕ → DaemonHandle → DaemonHandle
  stop_daemon fuel started finished d = record d {
    flush_loop = (stop_flush e fuel started finished none d.flush_loop).1;
    service = stop_service k order d.service;
  }

  -- `Cleanup`, and the removal of the directory
  unfoldable pub cleanup : Ip → ℕ → ℕ → ℕ → Harness → Links → Harness × Links
  cleanup ip fuel started finished h l = (
    elim h.daemon [
      | none ↦ h
      | some d ↦ record h { daemon = some (stop_daemon fuel started finished d) }
    ],
    delete_pairs ip h.veth_pairs l,
  )

module _ (k : Kernel) (o : Objects) (e : Engine) (order : List GoString → List GoString) (ip : Ip)
    (fuel started finished : ℕ) (h : Harness) (l : Links) where
  -- no link is left: after an error at once, and otherwise after the clean-up
  abbrev pub IsClean : Result DaemonHandle × Service → Type 0
  IsClean (err x, svc) = svc.manager.net.links ≡ []
  IsClean (ok d, svc) =
      let h' = (cleanup k e order ip fuel started finished (with_daemon (ok d) h) l).0 in
      Option.map (λ s. s.manager.net.links) (get_service h') ≡ some []

  module _ (svc : Service) (clean : (stop_service k order svc).manager.net.links ≡ []) where
    loop_begun-IsClean :
        (x : Result (Unit {0}) × FlushLoop) → IsClean (loop_begun k o e order h svc x)
    unfolding with_daemon cleanup stop_daemon get_service
    loop_begun-IsClean (err y, f) = clean
    loop_begun-IsClean (ok _, f) = ap some clean

    database_opened-IsClean : (r : Result Session) → IsClean (database_opened k o e order h svc r)
    database_opened-IsClean (err x) = clean
    database_opened-IsClean (ok repo) =
        loop_begun-IsClean
          (start_flush e (new_flush_loop repo (service_map svc) h.config.flush_interval))

  service_started-IsClean :
      (file : Tables) (x : Result (Unit {0}) × Service)
      → x.0 ≡ ok tt
      → (x.0 ≡ ok tt → (stop_service k order x.1).manager.net.links ≡ [])
      → IsClean (service_started k o e order h file x)
  service_started-IsClean file (err y, svc) good clean = cc good
  service_started-IsClean file (ok u, svc) good clean =
      database_opened-IsClean svc (clean good) (open_repository e file)

  -- If the kernel holds no link at first, every link closes, no interface of the configuration is
  -- given twice, and the service starts: an error of `StartDaemon` leaves no link in the kernel, and
  -- after a success `Cleanup` leaves none, in whatever order Go gives the interfaces.
  pub start_daemon_links :
      (calls : ℕ) (file : Tables)
      → ((names : List GoString) → Permᴰ (order names) names)
      → ¬ CloseFault k
      → AreDistinct h.config.interfaces
      → (start_service k o (new_service h.config [] (idle calls))).0 ≡ ok tt
      → IsClean (start_daemon k o e order (idle calls) file h)
  unfolding start_daemon
  start_daemon_links calls file perm closes distinct good =
      service_started-IsClean file (start_service k o (new_service h.config [] (idle calls))) good
        (started_stop k o h.config [] calls order perm distinct closes (idle calls) refl)
