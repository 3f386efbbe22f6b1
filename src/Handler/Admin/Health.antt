-- ===== src/Handler/Admin/Health.antt =====
-- `ServeHealth` and `ServeHealthLogs` of internal/handler/admin.go. The query parameters of a URL are
-- what net/url reads, and the state of the pool is what pgxpool reports.
pub mod Laws
mod Tests
use disapyr_link.Common.{
  ℕ, ℤ, pos, negsuc, ◌+ℤ◌, wrap64, List, [], ◌∷◌, map, Bytes, same, if◌then◌else◌, codes, Option,
}
use disapyr_link.Repository.{Call, Verdict, completed, refused, lost, LogRow}
use disapyr_link.Strings.{Unicode}
use disapyr_link.Http.{Request, World, Handler, returned, warn, log}
use disapyr_link.Handler.Admin.{format_uptime}
use disapyr_link.Handler.Admin.LogTable.{page_size, page_of, has_more, query_logs}
use disapyr_link.Handler.Admin.Views.{
  Reply, SecretStats, LogLevelCount, PartialData, HealthData, health, logs, Templates, health_page,
  partial_page, ShownRow, shown_row, show_page,
}
use disapyr_link.Handler.Admin.Stats.{query_secret_stats, query_log_summary}

-- What goes with the pages: the time before now by an interval, the order of the rows of a statement, how
-- many of them arrive before a connection is lost, and the indentation of JSON.
pub record Browser : Type 0 where
  pub ago : ℤ → Bytes → ℤ
  pub order : Call → List LogRow → List LogRow
  pub arrived : Call → ℕ
  pub unicode : Unicode
  pub pretty : Bytes → Option Bytes

-- What queryLogs logs: an error of the count, and an error of the rows before the first is sent.
abbrev pub log_query : Verdict → Verdict → World → World
log_query completed (refused text) w =
    log warn (codes "queryLogs rows") ((codes "error", text) ∷ []) w
log_query completed _ w = w
log_query (refused text) _ w = log warn (codes "queryLogs count") ((codes "error", text) ∷ []) w
log_query (lost text) _ w = log warn (codes "queryLogs count") ((codes "error", text) ∷ []) w

abbrev pub found_rows : Browser → Call → Call → List LogRow → Bytes → Bytes → ℕ → List ShownRow × ℕ
found_rows b c c' table level window page =
    let (rows, total) = query_logs b.ago b.order b.arrived c c' table level window page in
    (map (shown_row b.unicode b.pretty) rows, total)

abbrev pub default_window : Bytes → Bytes
default_window window = if same window [] then codes "24h" else window

-- The data of the partial for a page.
unfoldable pub page_data : ℕ → Bytes → Bytes → Bytes → List ShownRow × ℕ → PartialData
unfolding has_more wrap64 ◌+ℤ◌
page_data page level window msg (rows, total) = record {
  rows = rows;
  total = total;
  page = page;
  next_page = wrap64 (pos page +ℤ pos 1);
  prev_page = pos page +ℤ negsuc 0;
  level = level;
  window = window;
  has_more = has_more page total;
  page_size = page_size;
  clear_msg = msg;
}

-- ServeHealthLogs
unfoldable pub serve_health_logs :
    Browser → (Request → Bytes → Bytes) → Templates → Call → Call → Handler
unfolding page_of query_logs page_data show_page
serve_health_logs b query ts c c' r w =
    let level = query r (codes "level") in
    let window = default_window (query r (codes "window")) in
    let page = page_of (query r (codes "page")) in
    (
      show_page ts partial_page (codes "health logs partial execute")
          (logs
            (page_data page level window [] (found_rows b c c' w.db.app_logs level window page)))
          (log_query c.verdict c'.verdict w),
      returned,
    )

-- `pool.Ping`, and `pool.Stat` behind it.
pub data Ping : Type 0 where
  unhealthy : Bytes → Ping
  healthy : ℕ → ℕ → ℕ → Ping

abbrev pub log_ping : Ping → World → World
log_ping (unhealthy text) w =
    log warn (codes "health check: DB ping failed") ((codes "error", text) ∷ []) w
log_ping (healthy _ _ _) w = w

abbrev db_status : Ping → Bytes
db_status (unhealthy _) = codes "unhealthy"
db_status (healthy _ _ _) = codes "healthy"

abbrev db_error : Ping → Bytes
db_error (unhealthy text) = text
db_error (healthy _ _ _) = []

abbrev connections : Ping → ℕ × ℕ × ℕ
connections (unhealthy _) = (0, 0, 0)
connections (healthy total idle most) = (total, idle, most)

-- What the environment gives to one health page.
pub record Checkup : Type 0 where
  pub go_version : Bytes
  pub uptime : ℕ
  pub ping : Ping
  pub summary : Reply (Bytes × ℕ)
  pub stats : Reply (Bytes × ℕ)
  pub count_call : Call
  pub rows_call : Call

unfoldable pub health_data :
    Checkup → List LogLevelCount → SecretStats → List ShownRow × ℕ → HealthData
unfolding format_uptime
health_data k summary stats (rows, total) = record {
  app_status = codes "healthy";
  db_status = db_status k.ping;
  db_error = db_error k.ping;
  db_total_conn = (connections k.ping).0;
  db_idle_conn = (connections k.ping).1;
  db_max_conn = (connections k.ping).2;
  uptime = format_uptime k.uptime;
  go_version = k.go_version;
  log_summary = summary;
  initial_logs = rows;
  total_logs = total;
  secrets = stats;
}

-- ServeHealth
unfoldable pub serve_health : Browser → Templates → Checkup → Handler
unfolding query_logs query_log_summary query_secret_stats health_data show_page
serve_health b ts k r w =
    let (w₁, summary) = query_log_summary b.unicode k.summary (log_ping k.ping w) in
    let (w₂, stats) = query_secret_stats k.stats w₁ in
    let found = found_rows b k.count_call k.rows_call w.db.app_logs [] (codes "24h") 0 in
    (
      show_page ts health_page (codes "health template execute")
          (health (health_data k summary stats found))
          (log_query k.count_call.verdict k.rows_call.verdict w₂),
      returned,
    )
