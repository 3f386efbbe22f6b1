-- ===== src/Server/Start/Tests.antt =====
-- A start that succeeds, for the theorem about cmd/server/main.go.
use disapyr_link.Common.{
  ℕ, pos, ◌-◌, pos_part, refl, true, false, [], ◌∷◌, same, ltb, codes, none, some,
}
use disapyr_link.Model.{ok}
use disapyr_link.Config.Load.{load}
use disapyr_link.Http.{info, warn}
use disapyr_link.Database.{migrations, connect}
use disapyr_link.Handler.Pages as Pages
use disapyr_link.Handler.Pages.{index_page, retrieve_page, new_handler, parse_templates}
use disapyr_link.Handler.Admin.Views as Views
use disapyr_link.Handler.Admin.Views.{
  health_page, partial_page, new_admin_handler, parse_admin_templates,
}
use disapyr_link.Handler.RateLimit.{Buckets}
use disapyr_link.Logger.Attrs.{new_db_handler}
use disapyr_link.Server.Start.{slog_level, Surroundings, Running, limiters_of, start}
use disapyr_link.Server.Start.Laws.{IsReady, start-IsReady}

abbrev counting : Buckets
counting = record {
  Bucket = ℕ;
  fresh = λ rate burst. pos_part burst;
  allow = λ now n. (n - 1, ltb 0 n);
}

abbrev page : Pages.Template
page input = (codes "page", none)

abbrev admin_page : Views.Template
admin_page input = (codes "page", none)

abbrev surroundings : Surroundings
surroundings = record {
  env = λ name. [];
  parse_url = λ s. none;
  new_pool = ok tt;
  ping = ok tt;
  exec = λ n. ok tt;
  parse_page = λ name. ok page;
  parse_admin_page = λ name. ok admin_page;
  parse_partial = ok admin_page;
  start_time = pos 0;
}

abbrev running : Running counting
running = record {
  config = load (λ name. []);
  console = info;
  database = new_db_handler (slog_level warn);
  pool = some (record { open_now = true; migrated = migrations });
  pages = record {
    max_bytes = (load (λ name. [])).max_secret_bytes;
    templates = (index_page, page) ∷ (retrieve_page, page) ∷ [];
  };
  admin = record {
    admin_user = (load (λ name. [])).admin_user;
    admin_password = (load (λ name. [])).admin_password;
    start_time = pos 0;
    templates = (partial_page, admin_page) ∷ (health_page, admin_page) ∷ [];
  };
  limiters = limiters_of counting (load (λ name. []));
}

start-IsReady_example : IsReady counting surroundings running
unfolding start connect load new_handler new_admin_handler parse_templates parse_admin_templates
    same
start-IsReady_example =
    start-IsReady counting surroundings false
      {logs = record { level = info; msg = codes "database connected"; attrs = [] } ∷ []}
      {s = running} refl
