-- ===== src/Examples/Routes.antt =====
-- Requests to the server, with a mux that chooses the first route that matches.
use wlt_traffic.Base.{
  ◌≡◌, ◌≤◌, refl, false, Option, none, some, List, [], ◌∷◌, All, codes, arith, if◌then◌else◌,
  ℕ_discrete,
}
use wlt_traffic.Config.{default_config}
use wlt_traffic.Storage.Types.{GoString, GoString-discrete}
use wlt_traffic.Runtime.History.{new_session}
use wlt_traffic.Runtime.Service.{new_service}
use wlt_traffic.Http.Server.{no_body, is_text}
use wlt_traffic.Http.Traffic.{TrafficRecord}
use wlt_traffic.Http.Routes.{
  Handler, Request, Route, ServeMux, IsServeMux, Server, new_server, matches, serve_request,
  serve_request_keeps,
}
use wlt_traffic.Http.Routes.Served.{is_rooted, serve_request_lem}
use wlt_traffic.Go.Address.{occurs}
use wlt_traffic.Examples.Data.{quiet, failing, new_loop}

unfoldable first_route : List Route → GoString → GoString → Option Handler
first_route [] host path = none
first_route (r ∷ routes) host path =
    if matches host path r then some r.handler else first_route routes host path

abbrev mux : ServeMux
mux = record {
  handler_of = first_route;
  own = λ routes req. record { status = 404; body = no_body };
}

first_route_misses :
    (routes : List Route) (host path : GoString)
    → All (λ r. matches host path r ≡ false) routes
    → first_route routes host path ≡ none
unfolding first_route
first_route_misses [] host path n = refl
first_route_misses (r ∷ routes) host path n =
    ground (arith, n.0, first_route_misses routes host path n.1)

mux-IsServeMux : IsServeMux mux
mux-IsServeMux = record { misses = first_route_misses; own_status = λ routes req o. omega arith }

abbrev server : Server
server =
    new_server default_config (new_service default_config [] (record { calls = 0; links = [] }))
      new_session new_loop

abbrev unordered : List TrafficRecord → List TrafficRecord
unordered records = records

abbrev asked : Request
asked = record {
  method = codes "GET";
  host = codes "localhost";
  path = codes "/api/v1/traffic";
  get = λ name. [];
}

serve_request_keeps_example :
    ((serve_request failing unordered mux 0 0 asked server).1.committed ≡ server.repo.committed)
    × ((serve_request failing unordered mux 0 0 asked server).1.pending ≡ server.repo.pending)
serve_request_keeps_example = serve_request_keeps failing unordered mux 0 0 asked server

serve_request_lem_example :
    let (r, repo) = serve_request quiet unordered mux 0 0 asked server in
    (300 ≤ r.status) × (repo ≡ new_session)
unfolding occurs is_rooted is_text GoString-discrete ℕ_discrete
serve_request_lem_example =
    serve_request_lem quiet unordered mux 0 0 mux-IsServeMux default_config
      (new_service default_config [] (record { calls = 0; links = [] })) new_session new_loop asked
      refl refl refl
