-- ===== src/Server/Tests.antt =====
-- The link to a secret, opened, for the theorems about the routes of cmd/server/main.go and its history.
mod Sharing
use disapyr_link.Common.{
  Bytes, arith, inl, ℕ, ◌-◌, pos, pos_part, ◌≡◌, refl, false, [], ◌∷◌, same, ltb, codes, none, some,
  List,
}
use disapyr_link.Repository.{Call, completed}
use disapyr_link.Model.{ok, Secret}
use disapyr_link.Encoding.Hex
use disapyr_link.Encoding.Base64
use disapyr_link.Service as Service
use disapyr_link.Strings.{Unicode}
use disapyr_link.Http.{Request, World, Handler, fresh_writer, returned}
use disapyr_link.Handler.RateLimit.{Buckets, RateLimiter}
use disapyr_link.Handler.Admin.Views.{answered}
use disapyr_link.Handler.Admin.Health.{healthy}
use disapyr_link.Server.Mux.{choose}
use disapyr_link.Server.Routes.{reveal, Deps, Turn, Limiters, routes, get, post, serve}
use disapyr_link.Server.Routes.Spec.{target_of, choose-target}
use disapyr_link.Server.Routes.Safe.{serve-get_db}
use disapyr_link.Repository.Rows.{In, rows_with}
use disapyr_link.Server.Routes.Keeps.{route_of}
use disapyr_link.Server.Routes.Custody.{serve-app_logs}
use disapyr_link.Repository.Invariant.{IsValid}
use disapyr_link.Server.History.{Occurrence, asked, ticked, health_pruned, System, happen_all}
use disapyr_link.Server.History.Once.{answers}
use disapyr_link.Server.History.Laws.{happen_all-In, happen_all-IsValid}

abbrev pub counting : Buckets
counting = record {
  Bucket = ℕ;
  fresh = λ rate burst. pos_part burst;
  allow = λ now n. (n - 1, ltb 0 n);
}

abbrev pub tables : Unicode
tables = record { lower = λ s. s; fold = λ s t. same s t; trim = λ s. s }

abbrev pub clock_call : Call
clock_call = record {
  verdict = completed;
  now = pos 100;
  uuid = 1;
  violation = codes "dup";
  stamp = λ t. t;
}

abbrev quiet : Handler
quiet r w = (w, returned)

abbrev pub deps : Deps
deps = record {
  unicode = tables;
  net = record { parse_ip = λ s. some s; split_host_port = λ s. some s };
  escaped_path = λ r. r.path;
  unescape = λ s. s;
  files = quiet;
  moved = quiet;
  decode = λ s. none;
  max_bytes = pos 1000;
  pages = [];
  admin_pages = [];
  browser = record {
    ago = λ now interval. pos 10;
    order = λ c rows. rows;
    arrived = λ c. 0;
    unicode = tables;
    pretty = λ s. none;
  };
  sha = λ s. s;
  credentials = λ r. none;
  admin_user = [];
  admin_password = [];
  query = λ r key. [];
  form = λ r key. [];
  url_host = λ s. none;
}

abbrev pub turn : Turn
turn = record {
  clock = pos 100;
  answers = record {
    now = pos 100;
    main_call = clock_call;
    event_call = clock_call;
    random = ok [];
  };
  checkup = record {
    go_version = codes "go1.24";
    uptime = 1;
    ping = healthy 2 1 4;
    summary = answered [] none;
    stats = answered [] none;
    count_call = clock_call;
    rows_call = clock_call;
  };
  delete_call = clock_call;
  count_call = clock_call;
  rows_call = clock_call;
}

abbrev pub limiter : RateLimiter counting
limiter = record {
  limiters = [];
  burst = pos 5;
  per_minute = pos 10;
  trust_proxy = false;
  trusted_proxies_count = pos 1;
}

abbrev pub limiters : Limiters counting
limiters = record { for_create = limiter; for_reveal = limiter; for_health = limiter }

abbrev pub opening : Request
opening = record {
  method = get;
  path = codes "/s/ab";
  host = codes "localhost";
  remote_addr = codes "10.0.0.1";
  headers = [];
  body = [];
  token = [];
}

abbrev pub world : World
world = record {
  db = record { secrets = []; events = []; app_logs = [] };
  logs = [];
  out = fresh_writer;
}

choose-target_example :
    target_of (choose routes post (codes "s" ∷ codes "ab" ∷ codes "reveal" ∷ []))
    ≡ some (reveal, codes "ab")
unfolding same
choose-target_example = choose-target post (codes "s" ∷ codes "ab" ∷ codes "reveal" ∷ [])

serve-get_db_example : (serve counting deps turn limiters opening world).1.0.db ≡ world.db
unfolding same
serve-get_db_example =
    serve-get_db counting deps turn limiters opening world (λ r w. refl) (λ r w. refl) refl

abbrev pub row : Secret
row = record {
  id = 1;
  token = codes "ab";
  ciphertext = 1 ∷ [];
  nonce = 2 ∷ [];
  expires_at = none;
  created_at = pos 5;
}

abbrev pub full : World
full = record {
  db = record {
    secrets = row ∷ [];
    events = [];
    app_logs =
        record { id = 1; ts = pos 5; level = codes "WARN"; msg = codes "m"; attrs = none } ∷ [];
  };
  logs = [];
  out = fresh_writer;
}

abbrev pub posting : Bytes → Request
posting path = record opening { method = post; path = path }

-- One asks for another token, the worker comes, and one opens the link without revealing.
abbrev occurrences : List Occurrence
occurrences =
    asked turn (posting (codes "/s/cd/reveal"))
    ∷ ticked clock_call clock_call
    ∷ asked turn opening
    ∷ health_pruned (pos 7)
    ∷ []

abbrev system : System counting deps
system = record { limiters = limiters; world = full }

full-IsValid : IsValid full.db
unfolding rows_with
full-IsValid = record { unique = λ t. ground arith; known = tt }

happen_all-In_example : In row (happen_all counting deps occurrences system).world.db.secrets
unfolding route_of same
happen_all-In_example =
    happen_all-In counting deps row (λ r w h. h) (λ r w h. h) occurrences system
      ((λ h. ground arith), (refl, ((λ h. ground arith), (tt, tt)))) (inl refl)

happen_all-IsValid_example : IsValid (happen_all counting deps occurrences system).world.db
happen_all-IsValid_example =
    happen_all-IsValid counting deps (λ r w h. h) (λ r w h. h) occurrences system full-IsValid

abbrev guarded_deps : Deps
guarded_deps = record deps { admin_user = codes "root"; admin_password = codes "pw" }

serve-app_logs_example :
    (serve counting guarded_deps turn limiters
      (posting (codes "/health/logs/clear"))
      full).1.0.db.app_logs
    ≡ full.db.app_logs
serve-app_logs_example =
    serve-app_logs counting guarded_deps turn limiters (posting (codes "/health/logs/clear")) full
      (λ r w. refl) (λ r w. refl) (λ token. refl)
