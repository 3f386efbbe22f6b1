-- ===== src/Server/Serving.antt =====
-- The handlers of cmd/server/main.go as the start sets them up: what they take from the configuration and
-- from the templates that were parsed; and the way of what they log to app_logs, through the handler and the
-- writer of internal/logger/db_handler.go.
pub mod Logged
pub mod Reading
pub mod Admission
pub mod Opening
mod Tests
use disapyr_link.Common.{ℕ, suc, ℤ, true, List, [], ◌∷◌, ◌++◌, Bytes, codes, if◌then◌else◌, Option}
use disapyr_link.Repository.{Call}
use disapyr_link.Logger.Attrs.{Attrs, leaf, nil, cons, DbHandler, enabled, record_attrs}
use disapyr_link.Logger.Queue.{DbRecord}
use disapyr_link.Logger.Writer.{Json, insert_all}
use disapyr_link.Strings.{Unicode}
use disapyr_link.Http.{Level, LogRecord, Request, Handler, World, Exit}
use disapyr_link.Handler.RateLimit.{Buckets, Net}
use disapyr_link.Handler.Secrets.{Decoder}
use disapyr_link.Handler.Admin.{UrlHost}
use disapyr_link.Handler.Admin.Health.{Browser}
use disapyr_link.Server.Routes.{Deps, Turn, Limiters, serve}
use disapyr_link.Server.Start.{slog_level, Running}

-- What the handlers use of the libraries: net, net/http, encoding/json, crypto/sha256 and net/url.
pub record Outside : Type 0 where
  pub unicode : Unicode
  pub net : Net
  pub escaped_path : Request → Bytes
  pub unescape : Bytes → Bytes
  pub files : Handler
  pub moved : Handler
  pub decode : Decoder
  pub browser : Browser
  pub sha : Bytes → Bytes
  pub credentials : Request → Option (Bytes × Bytes)
  pub query : Request → Bytes → Bytes
  pub form : Request → Bytes → Bytes
  pub url_host : Bytes → Option UrlHost
  -- What goes with the writer of app_logs.
  pub json : Json

-- What becomes of a record that the log handler takes: it finds the queue full; or it is queued with its
-- time, and the writer sends it with a call.
pub data Fate : Type 0 where
  dropped : Fate
  queued : ℤ → Call → Fate

-- `slog.Level.String`.
abbrev level_text : Level → Bytes
level_text Level.debug = codes "DEBUG"
level_text Level.info = codes "INFO"
level_text Level.warn = codes "WARN"
level_text Level.error = codes "ERROR"

abbrev attrs_of : List (Bytes × Bytes) → Attrs
attrs_of [] = nil
attrs_of ((key, value) ∷ rest) = cons (leaf key value) (attrs_of rest)

-- The record that Handle queues.
unfoldable pub db_record : DbHandler → ℤ → LogRecord → DbRecord
unfolding record_attrs
db_record h ts r = record {
  ts = ts;
  level = level_text r.level;
  msg = r.msg;
  attrs = record_attrs h (attrs_of r.attrs);
}

abbrev queue_by : DbHandler → LogRecord → Fate → List (Call × DbRecord) → List (Call × DbRecord)
queue_by h r dropped rest = rest
queue_by h r (queued ts c) rest = (c, db_record h ts r) ∷ rest

-- Of the records that a request logs, those that the writer gets: they have the level of the handler, and
-- the queue has room.
unfoldable pub queued_records : DbHandler → (ℕ → Fate) → ℕ → List LogRecord → List (Call × DbRecord)
unfolding enabled db_record
queued_records h fates i [] = []
queued_records h fates i (r ∷ rs) =
    let rest = queued_records h fates (suc i) rs in
    if enabled h (slog_level r.level) then queue_by h r (fates i) rest else rest

module _ (k : Buckets) where
  -- The handlers of a server that runs.
  unfoldable pub deps_of : Outside → Running k → Deps
  deps_of o s = record {
    unicode = o.unicode;
    net = o.net;
    escaped_path = o.escaped_path;
    unescape = o.unescape;
    files = o.files;
    moved = o.moved;
    decode = o.decode;
    max_bytes = s.pages.max_bytes;
    pages = s.pages.templates;
    admin_pages = s.admin.templates;
    browser = o.browser;
    sha = o.sha;
    credentials = o.credentials;
    admin_user = s.admin.admin_user;
    admin_password = s.admin.admin_password;
    query = o.query;
    form = o.form;
    url_host = o.url_host;
  }

  -- A server that runs serves a request, and the writer has caught up with what the request logged.
  unfoldable pub serve_running :
      Outside
      → Running k
      → Turn
      → (ℕ → Fate)
      → Limiters k
      → Request
      → World
      → Limiters k × (World × Exit)
  unfolding deps_of serve queued_records insert_all
  serve_running o s e fates l r w =
      let (l', (v, exit)) = serve k (deps_of o s) e l r (record w { logs = [] }) in
      (
        l',
        (
          record v {
            db = insert_all true o.json (queued_records s.database fates 0 v.logs) v.db;
            logs = w.logs ++ v.logs;
          },
          exit,
        ),
      )
