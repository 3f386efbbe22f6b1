-- ===== src/Handler/Middleware/Tests.antt =====
-- Requests for the theorems about `Middleware` of internal/handler/handler.go.
use disapyr_link.Common.{◌≡◌, refl, [], ◌++◌, arith, Bytes, same, codes, Lacks}
use disapyr_link.Strings.{Unicode}
use disapyr_link.Http.{
  respond, write_header, Request, World, fresh_writer, status, returned, panicked, Handler,
}
use disapyr_link.Handler.Probe.{is_probe_request}
use disapyr_link.Handler.Middleware.{middleware, before_next}
use disapyr_link.Handler.Middleware.Laws.{middleware-hides}
use disapyr_link.Handler.Mask.{slash, mask_token_in_path}

abbrev tables : Unicode
tables = record { lower = λ s. s; fold = λ s t. same s t; trim = λ s. s }

abbrev request : Bytes → Request
request path = record {
  method = codes "GET";
  path = path;
  host = codes "localhost";
  remote_addr = codes "10.0.0.1:5";
  headers = [];
  body = [];
  token = [];
}

abbrev world : World
world = record {
  db = record { secrets = []; events = []; app_logs = [] };
  logs = [];
  out = fresh_writer;
}

abbrev quiet : Handler
quiet r w = (w, returned)

abbrev failing : Handler
failing r w = (w, panicked (codes "boom"))

abbrev entered : World
entered = before_next (mask_token_in_path (codes "/health")) (request (codes "/health")) world

-- A handler that sends the status 200 and then panics.
abbrev late : Handler
late r w = (respond (write_header 200) w, panicked (codes "boom"))

late-success : status (middleware tables late (request (codes "/health")) world).0 ≡ 200
unfolding is_probe_request middleware
late-success = refl

-- One that panics at once is answered with the status 500.
failing-status : status (middleware tables failing (request (codes "/health")) world).0 ≡ 500
unfolding is_probe_request middleware
failing-status = refl

token-Lacks : Lacks slash (codes "a1")
token-Lacks = ground arith

other-Lacks : Lacks slash (codes "bc")
other-Lacks = ground arith

middleware-hides_example :
    middleware tables quiet (request (codes "/s/" ++ (codes "a1" ++ []))) world
    ≡ middleware tables quiet (request (codes "/s/" ++ (codes "bc" ++ []))) world
unfolding is_probe_request
middleware-hides_example =
    middleware-hides tables quiet (request []) world (codes "a1") (codes "bc") [] (λ h. cc)
      (λ h. cc) token-Lacks other-Lacks tt refl refl (λ v. refl)
