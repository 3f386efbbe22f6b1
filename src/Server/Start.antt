-- ===== src/Server/Start.antt =====
-- The start of cmd/server/main.go, up to the server that listens. The answers of pgx and of
-- html/template are arguments; what os.Exit leaves undone is left as it is.
pub mod Laws
pub mod Configured
mod Tests
use disapyr_link.Common.{
  ℕ, ℤ, pos, negsuc, Bool, List, [], ◌∷◌, Bytes, same, if◌then◌else◌, codes, Option,
}
use disapyr_link.Model.{Error, error_text, Result, ok, err}
use disapyr_link.Http.{Level, info, error, LogRecord}
use disapyr_link.Config.Redact.{Redaction}
use disapyr_link.Config.Load.{Config, Env, Url, load, print}
use disapyr_link.Database.{Pool, connect}
use disapyr_link.Handler.Pages as Pages
use disapyr_link.Handler.Pages.{PageHandler, new_handler}
use disapyr_link.Handler.Admin.Views as Views
use disapyr_link.Handler.Admin.Views.{AdminHandler, new_admin_handler}
use disapyr_link.Logger.Attrs.{DbHandler, new_db_handler}
use disapyr_link.Handler.RateLimit.{Buckets, new_rate_limiter}
use disapyr_link.Server.Routes.{Limiters}

-- The numbers of slog's levels.
abbrev pub slog_level : Level → ℤ
slog_level Level.debug = negsuc 3
slog_level Level.info = pos 0
slog_level Level.warn = pos 4
slog_level Level.error = pos 8

-- parseLogLevel
unfoldable pub parse_log_level : Bytes → Level
parse_log_level s =
    if same s (codes "debug")
    then Level.debug
    else if same s (codes "info")
    then Level.info
    else if same s (codes "error")
    then Level.error
    else Level.warn

-- The level of the console.
unfoldable pub console_level : Config → Level
console_level c = if same c.log_level (codes "debug") then Level.debug else Level.info

-- What the start finds: pgx's answers, and those of html/template for each page.
pub record Surroundings : Type 0 where
  pub env : Env
  pub parse_url : Bytes → Option Url
  pub new_pool : Result (Unit {0})
  pub ping : Result (Unit {0})
  pub exec : ℕ → Result (Unit {0})
  pub parse_page : Bytes → Result Pages.Template
  pub parse_admin_page : Bytes → Result Views.Template
  pub parse_partial : Result Views.Template
  -- `time.Now()` when the administration pages are set up.
  pub start_time : ℤ

abbrev failure : Bytes → Error → LogRecord
failure msg e = record { level = Level.error; msg = msg; attrs = (codes "err", error_text e) ∷ [] }

abbrev connected : LogRecord
connected = record { level = Level.info; msg = codes "database connected"; attrs = [] }

module _ (k : Buckets) where
  -- The server that listens.
  pub record Running : Type 0 where
    pub config : Config
    pub console : Level
    pub database : DbHandler
    pub pool : Option Pool
    pub pages : PageHandler
    pub admin : AdminHandler
    pub limiters : Limiters k

  -- The configuration is printed; or the process exits with a code, having logged, with the pool in
  -- some state; or the server runs.
  pub data Start : Type 0 where
    prints : Redaction → Start
    exits : ℕ → List LogRecord → Option Pool → Start
    runs : List LogRecord → Running → Start

  unfoldable pub limiters_of : Config → Limiters k
  unfolding new_rate_limiter
  limiters_of c = record {
    for_create =
        new_rate_limiter k c.rate_limit_create_per_min (pos 5) c.trust_proxy
          c.trusted_proxies_count;
    for_reveal =
        new_rate_limiter k c.rate_limit_reveal_per_min (pos 10) c.trust_proxy
          c.trusted_proxies_count;
    for_health =
        new_rate_limiter k c.rate_limit_health_per_min (pos 3) c.trust_proxy
          c.trusted_proxies_count;
  }

  abbrev pub with_admin : Config → Option Pool → PageHandler → Result AdminHandler → Start
  with_admin c p pages (err e) = exits 1 (connected ∷ failure (codes "init admin handler") e ∷ []) p
  with_admin c p pages (ok admin) = runs (connected ∷ []) (record {
    config = c;
    console = console_level c;
    database = new_db_handler (slog_level (parse_log_level c.log_db_min_level));
    pool = p;
    pages = pages;
    admin = admin;
    limiters = limiters_of c;
  })

  abbrev pub with_handlers : Surroundings → Config → Option Pool → Result PageHandler → Start
  with_handlers x c p (err e) = exits 1 (connected ∷ failure (codes "init handlers") e ∷ []) p
  with_handlers x c p (ok pages) = with_admin c p pages (
      new_admin_handler c.admin_user c.admin_password x.start_time x.parse_admin_page
        x.parse_partial)

  abbrev pub with_pool : Surroundings → Config → Option Pool × Result (Unit {0}) → Start
  with_pool x c (p, err e) = exits 1 (failure (codes "connect to database") e ∷ []) p
  with_pool x c (p, ok _) = with_handlers x c p (new_handler c.max_secret_bytes x.parse_page)

  -- main, with the flag -print-config or without.
  unfoldable pub start : Surroundings → Bool → Start
  unfolding load connect new_handler new_admin_handler limiters_of console_level parse_log_level
  start x print_config =
      let c = load x.env in
      if print_config
      then prints (print x.parse_url c)
      else with_pool x c (connect x.new_pool x.ping x.exec)
