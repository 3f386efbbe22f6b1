-- ===== src/Server/Serving/Tests.antt =====
-- A server that was started and is asked for an administration page, for the theorem about
-- cmd/server/main.go.
use disapyr_link.Common.{
  ℕ, ◌-◌, pos, pos_part, arith, length, ◌≡◌, refl, true, [], ◌∷◌, same, ltb, codes, none, some,
  if◌then◌else◌,
}
use disapyr_link.Model.{ok}
use disapyr_link.Config.Load.{Env, load}
use disapyr_link.Strings.{Unicode}
use disapyr_link.Http.{
  info, warn, Request, World, fresh_writer, respond, write_header, returned, status,
}
use disapyr_link.Database.{migrations, connect}
use disapyr_link.Repository.{Call, completed}
use disapyr_link.Handler.Pages as Pages
use disapyr_link.Handler.Pages.{
  find_template, index_page, retrieve_page, new_handler, parse_templates,
}
use disapyr_link.Handler.Admin.Views as Views
use disapyr_link.Handler.Admin.Views.{
  health_page, partial_page, new_admin_handler, parse_admin_templates, answered,
}
use disapyr_link.Handler.Admin.{basic_auth}
use disapyr_link.Handler.Admin.Health.{healthy, serve_health}
use disapyr_link.Handler.RateLimit.{Buckets, limit}
use disapyr_link.Logger.Attrs.{new_db_handler}
use disapyr_link.Server.Routes.{health, Turn, get, serve}
use disapyr_link.Server.Routes.Keeps.{route_of}
use disapyr_link.Server.Start.{slog_level, Surroundings, Running, limiters_of, start}
use disapyr_link.Server.Serving.{Outside, Fate, queued, deps_of, serve_running}
use disapyr_link.Encoding.Hex
use disapyr_link.Service.{generate_token}
use disapyr_link.Server.Serving.Logged.{IsLogged}
use disapyr_link.Server.Serving.Reading.{serve_running-reading}
use disapyr_link.Server.Serving.Opening.{OpensPage, serve_running-page}
use disapyr_link.Server.Serving.Admission.{Bears, serve_running-Bears}

abbrev counting : Buckets
counting = record {
  Bucket = ℕ;
  fresh = λ rate burst. pos_part burst;
  allow = λ now n. (n - 1, ltb 0 n);
}

abbrev page : Pages.Template
page input = (codes "page", none)

abbrev admin_page : Views.Template
admin_page input = (codes "page", none)

abbrev owned : Env
owned name =
    if same name (codes "ADMIN_USER")
    then codes "root"
    else if same name (codes "ADMIN_PASSWORD")
    then codes "pw"
    else []

abbrev surroundings : Surroundings
surroundings = record {
  env = owned;
  parse_url = λ s. none;
  new_pool = ok tt;
  ping = ok tt;
  exec = λ n. ok tt;
  parse_page = λ name. ok page;
  parse_admin_page = λ name. ok admin_page;
  parse_partial = ok admin_page;
  start_time = pos 0;
}

abbrev running : Running counting
running = record {
  config = load owned;
  console = info;
  database = new_db_handler (slog_level warn);
  pool = some (record { open_now = true; migrated = migrations });
  pages = record {
    max_bytes = (load owned).max_secret_bytes;
    templates = (index_page, page) ∷ (retrieve_page, page) ∷ [];
  };
  admin = record {
    admin_user = (load owned).admin_user;
    admin_password = (load owned).admin_password;
    start_time = pos 0;
    templates = (partial_page, admin_page) ∷ (health_page, admin_page) ∷ [];
  };
  limiters = limiters_of counting (load owned);
}

abbrev tables : Unicode
tables = record { lower = λ s. s; fold = λ s t. same s t; trim = λ s. s }

abbrev clock_call : Call
clock_call = record {
  verdict = completed;
  now = pos 100;
  uuid = 1;
  violation = codes "dup";
  stamp = λ t. t;
}

abbrev outside : Outside
outside = record {
  unicode = tables;
  net = record { parse_ip = λ s. some s; split_host_port = λ s. some s };
  escaped_path = λ r. r.path;
  unescape = λ s. s;
  files = λ r w. (w, returned);
  moved = λ r w. (respond (write_header 301) w, returned);
  decode = λ s. none;
  browser = record {
    ago = λ now interval. pos 10;
    order = λ c rows. rows;
    arrived = λ c. 0;
    unicode = tables;
    pretty = λ s. none;
  };
  sha = λ s. s;
  credentials = λ r. some (codes "root", codes "pw");
  query = λ r key. [];
  form = λ r key. [];
  url_host = λ s. none;
  json = record { marshal = λ m. some (codes "{}"); stored = λ s. s };
}

-- The writer gets every record.
abbrev fates : ℕ → Fate
fates n = queued (pos 100) clock_call

abbrev turn : Turn
turn = record {
  clock = pos 100;
  answers = record {
    now = pos 100;
    main_call = clock_call;
    event_call = clock_call;
    random = ok [];
  };
  checkup = record {
    go_version = codes "go1.24";
    uptime = 1;
    ping = healthy 2 1 4;
    summary = answered [] none;
    stats = answered [] none;
    count_call = clock_call;
    rows_call = clock_call;
  };
  delete_call = clock_call;
  count_call = clock_call;
  rows_call = clock_call;
}

abbrev asking : Request
asking = record {
  method = get;
  path = codes "/health";
  host = codes "localhost";
  remote_addr = codes "10.0.0.1";
  headers = [];
  body = [];
  token = [];
}

abbrev world : World
world = record {
  db = record { secrets = []; events = []; app_logs = [] };
  logs = [];
  out = fresh_writer;
}

asked-health :
    status (serve_running counting outside running turn fates running.limiters asking world).1.0
    ≡ 200
unfolding serve_running deps_of serve limit limiters_of load basic_auth serve_health
asked-health = refl

serve_running-Bears_example :
    Bears outside.sha (codes "root") (codes "pw") (some (codes "root", codes "pw"))
unfolding start connect load new_handler new_admin_handler parse_templates parse_admin_templates
    same write_header deps_of route_of
serve_running-Bears_example =
    serve_running-Bears counting surroundings outside
      {logs = record { level = info; msg = codes "database connected"; attrs = [] } ∷ []}
      {s = running} refl (λ r w h. rw h (λ good. ground arith)) turn fates running.limiters asking
      world health [] refl refl refl asked-health

abbrev opening : Request
opening = record asking { path = codes "/s/ab05" }

serve_running-page_example :
    (p : Pages.Template) × (find_template retrieve_page running.pages.templates ≡ some p)
    × OpensPage p
        ((codes "Token", codes "ab05") ∷ [])
        world
        (serve_running counting outside running turn fates running.limiters opening world).1.0
unfolding start connect load new_handler new_admin_handler parse_templates parse_admin_templates
    same generate_token Hex.encode
serve_running-page_example =
    serve_running-page counting surroundings outside
      {logs = record { level = info; msg = codes "database connected"; attrs = [] } ∷ []}
      {s = running} refl (λ u h. refl) 171 (5 ∷ []) (codes "ab05") turn fates running.limiters
      opening world (omega arith, (omega arith, tt)) refl refl refl refl refl

-- The link is opened in a server whose log handler takes what is logged at the level info.
serve_running-reading_example :
    IsLogged world.db
      (serve_running counting outside
        (record running { database = new_db_handler (pos 0) })
        turn
        fates
        running.limiters
        opening
        world).1.0.db
unfolding same
serve_running-reading_example =
    serve_running-reading counting outside (record running { database = new_db_handler (pos 0) })
      turn fates running.limiters opening world (λ r w. refl) (λ r w. refl) refl

-- The record of the request is in app_logs then.
logged-opening :
    length
      (serve_running counting outside
        (record running { database = new_db_handler (pos 0) })
        turn
        fates
        running.limiters
        opening
        world).1.0.db.app_logs
    ≡ 1
unfolding serve_running deps_of serve Pages.serve_page
logged-opening = refl
