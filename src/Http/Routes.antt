-- ===== src/Http/Routes.antt =====
-- `Server`, `NewServer` and the routes of internal/http/http.go. `http.ServeMux` stands outside: a
-- parameter of the model, with what its documentation says of patterns in Go 1.21.
pub mod Served
use wlt_traffic.Base.{
  ℕ, ◌≤◌, Bool, true, false, ◌&&◌, ◌||◌, All, ◌≡◌, ◌≢◌, ◌⊎◌, refl, sym, ap, subst, ◌∙◌, Option,
  none, some, List, [], ◌∷◌, ◌++◌, codes, arith, ◌==◌, inl, inr, Option-cases,
}
use wlt_traffic.Config.{Config}
use wlt_traffic.Storage.Types.{GoString}
use wlt_traffic.Storage.Engine.{Engine, Session}
use wlt_traffic.Runtime.Flush.{FlushLoop}
use wlt_traffic.Runtime.Service.{Service}
use wlt_traffic.Http.Traffic.{TrafficRecord}
use wlt_traffic.Http.Server.{
  Response, Body, no_body, is_text, handle_healthz, handle_status, handle_traffic,
}
use wlt_traffic.Http.Server.Traffic.{handle_traffic_keeps}

pub data Handler : Type 0 where
  healthz status traffic : Handler

pub record Request : Type 0 where
  pub method : GoString
  -- the host and the path as the mux compares them with its patterns
  pub host : GoString
  pub path : GoString
  pub get : GoString → GoString

-- a pattern, as it is given to `HandleFunc`, with its handler
pub record Route : Type 0 where
  pub pattern : GoString
  pub handler : Handler

-- `http.ServeMux` with the routes that were registered, under `http.Server`
pub record ServeMux : Type 0 where
  -- the handler of a request to this host and path
  pub handler_of : List Route → GoString → GoString → Option Handler
  -- what the mux, or the server, answers itself where there is no handler
  pub own : List Route → Request → Response

pub record Server : Type 0 where
  pub cfg : Config
  pub mux : List Route
  pub svc : Service
  pub repo : Session
  pub flush_loop : FlushLoop

unfoldable pub new_server : Config → Service → Session → FlushLoop → Server
new_server cfg svc repo flush = record {
  cfg = cfg;
  mux =
      record { pattern = codes "GET /healthz"; handler = healthz }
      ∷ record { pattern = codes "GET /api/v1/status"; handler = status }
      ∷ record { pattern = codes "GET /api/v1/traffic"; handler = traffic }
      ∷ [];
  svc = svc;
  repo = repo;
  flush_loop = flush;
}

unfoldable pub ends_in_slash : GoString → Bool
ends_in_slash [] = false
ends_in_slash (c ∷ []) = c == 47
ends_in_slash (c ∷ d ∷ cs) = ends_in_slash (d ∷ cs)

unfoldable pub begins_with : GoString → GoString → Bool
begins_with [] text = true
begins_with (c ∷ cs) [] = false
begins_with (c ∷ cs) (d ∷ text) = c == d && begins_with cs text

-- a pattern is a path, or with a slash at its end a subtree of paths
unfoldable pub covers : GoString → GoString → Bool
covers pattern path = is_text path pattern || (ends_in_slash pattern && begins_with pattern path)

-- and it may begin with a host: the mux of Go 1.21 knows no methods in patterns
unfoldable pub matches : GoString → GoString → Route → Bool
matches host path r = covers r.pattern (host ++ path) || covers r.pattern path

-- the request that `http.Server` answers itself
abbrev pub is_options : Request → Bool
is_options req = is_text req.method (codes "OPTIONS") && is_text req.path (codes "*")

-- what net/http documents for Go 1.21, which go.mod asks for
pub record IsServeMux (mux : ServeMux) : Type 0 where
  pub misses :
      (routes : List Route) (host path : GoString)
      → All (λ r. matches host path r ≡ false) routes
      → mux.handler_of routes host path ≡ none
  -- the answers without a handler are redirections and errors, but for `OPTIONS *`
  pub own_status :
      (routes : List Route) (req : Request)
      → is_options req ≡ false
      → 300 ≤ (mux.own routes req).status

module _ (e : Engine) (order : List TrafficRecord → List TrafficRecord) (mux : ServeMux)
    (now later : ℕ) where
  -- the three handlers, as methods of the server
  unfoldable pub handle : Handler → Request → Server → Response × Session
  handle healthz req s = (handle_healthz now s.svc s.flush_loop, s.repo)
  handle status req s = (handle_status s.cfg now s.svc s.flush_loop, s.repo)
  handle traffic req s = handle_traffic e order now later req.get s.repo

  -- a request to the server that `Start` runs
  unfoldable pub serve_request : Request → Server → Response × Session
  serve_request req s = elim (mux.handler_of s.mux req.host req.path) [
    | none ↦ (mux.own s.mux req, s.repo)
    | some handler ↦ handle handler req s
  ]

  handle_keeps :
      (handler : Handler) (req : Request) (s : Server)
      → ((handle handler req s).1.committed ≡ s.repo.committed)
        × ((handle handler req s).1.pending ≡ s.repo.pending)
  unfolding handle
  handle_keeps healthz req s = (refl, refl)
  handle_keeps status req s = (refl, refl)
  handle_keeps traffic req s = handle_traffic_keeps e order now later req.get s.repo

  -- No request changes anything in the database, whatever its method, path and parameters, whichever
  -- handler is chosen, and whichever calls of the driver fail.
  pub serve_request_keeps :
      (req : Request) (s : Server)
      → ((serve_request req s).1.committed ≡ s.repo.committed)
        × ((serve_request req s).1.pending ≡ s.repo.pending)
  unfolding serve_request
  serve_request_keeps req s = elim (Option-cases (mux.handler_of s.mux req.host req.path)) [
    | inl own ↦ rw (own, serve_request) (refl, refl)
    | inr (handler, chosen) ↦ rw (chosen, serve_request) (handle_keeps handler req s)
  ]
