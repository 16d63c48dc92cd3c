-- ===== src/Http/Routes/Served.antt =====
-- Which requests reach the handlers of internal/http/http.go.
use wlt_traffic.Base.{
  ◌≤◌, ◌≡◌, ◌≢◌, refl, Bool, true, false, ◌||◌, none, List, [], ◌∷◌, ◌++◌, codes, arith, ℕ, ◌==◌,
}
use wlt_traffic.Config.{Config}
use wlt_traffic.Go.Address.{occurs}
use wlt_traffic.Storage.Types.{GoString}
use wlt_traffic.Storage.Engine.{Engine, Session}
use wlt_traffic.Runtime.Flush.{FlushLoop}
use wlt_traffic.Runtime.Service.{Service}
use wlt_traffic.Http.Traffic.{TrafficRecord}
use wlt_traffic.Http.Server.{is_text}
use wlt_traffic.Http.Routes.{
  Request, Route, ServeMux, IsServeMux, Server, new_server, matches, covers, ends_in_slash,
  is_options, serve_request,
}

-- no path, one from the root, or "*"
unfoldable pub is_rooted : GoString → Bool
is_rooted [] = true
is_rooted (c ∷ cs) = c == 47 || c == 42

is_text-eq : (s t : GoString) → is_text s t ≡ true → s ≡ t
unfolding is_text
is_text-eq s t h = ground (arith, h)

-- after the host comes a slash or a star, so a blank in the text is one of the host or later
blank_first :
    (word rest host path : GoString)
    → occurs 47 word ≡ false
    → occurs 42 word ≡ false
    → occurs 32 host ≡ false
    → is_rooted path ≡ true
    → host ++ path ≢ word ++ 32 ∷ rest
unfolding occurs is_rooted
blank_first [] rest [] [] p q h r e = ground (arith, e)
blank_first (w ∷ word) rest [] [] p q h r e = ground (arith, e)
blank_first [] rest [] (c ∷ path) p q h r e = ground (arith, e, r)
blank_first (w ∷ word) rest [] (c ∷ path) p q h r e = ground (arith, e, r, p, q)
blank_first [] rest (c ∷ host) path p q h r e = ground (arith, e, h)
blank_first (w ∷ word) rest (c ∷ host) path p q h r e =
    blank_first word rest host path (ground (arith, p)) (ground (arith, q)) (ground (arith, h)) r
      (ground (arith, e))

get_blank :
    (host path rest : GoString)
    → occurs 32 host ≡ false
    → is_rooted path ≡ true
    → is_text (host ++ path) (codes "GET " ++ rest) ≡ false
unfolding is_text occurs
get_blank host path rest h r =
    ground (arith, blank_first (codes "GET") rest host path refl refl h r)

-- a pattern that begins with "GET " and does not end in a slash
never_matched :
    (host path rest : GoString) (r : Route)
    → r.pattern ≡ codes "GET " ++ rest
    → ends_in_slash (codes "GET " ++ rest) ≡ false
    → occurs 32 host ≡ false
    → is_rooted path ≡ true
    → matches host path r ≡ false
unfolding matches covers occurs
never_matched host path rest r same file h p =
    rw same (ground (arith, get_blank host path rest h p, get_blank [] path rest refl p, file))

module _ (e : Engine) (order : List TrafficRecord → List TrafficRecord) (mux : ServeMux)
    (now later : ℕ) (documented : IsServeMux mux) where
  own-lem :
      (req : Request) (s : Server)
      → mux.handler_of s.mux req.host req.path ≡ none
      → is_options req ≡ false
      → let (r, repo) = serve_request e order mux now later req s in
        (300 ≤ r.status) × (repo ≡ s.repo)
  unfolding serve_request
  own-lem req s h o = rw (h, serve_request) (documented.own_status s.mux req o, refl)

  -- If the mux does what Go 1.21 documents, no request reaches a handler: a request whose host has no
  -- blank, whose path is empty or begins with "/" or "*", and that is not `OPTIONS *`, has a status of
  -- 300 or more, whatever its method, and does not touch the database.
  pub serve_request_lem :
      (cfg : Config) (svc : Service) (repo : Session) (flush : FlushLoop) (req : Request)
      → occurs 32 req.host ≡ false
      → is_rooted req.path ≡ true
      → is_options req ≡ false
      → let (r, repo') = serve_request e order mux now later req (new_server cfg svc repo flush) in
        (300 ≤ r.status) × (repo' ≡ repo)
  unfolding new_server ends_in_slash
  serve_request_lem cfg svc repo flush req h p o =
      own-lem req (new_server cfg svc repo flush)
        (documented.misses (new_server cfg svc repo flush).mux req.host req.path (
          never_matched req.host req.path (codes "/healthz") _ refl refl h p,
          (
            never_matched req.host req.path (codes "/api/v1/status") _ refl refl h p,
            (never_matched req.host req.path (codes "/api/v1/traffic") _ refl refl h p, tt),
          ),
        ))
        o
