-- ===== src/Handler/Admin/Views.antt =====
-- What the pages of internal/handler/admin.go show, and how they are written. A template of
-- html/template is an argument, and so is the indentation of JSON by encoding/json.
use disapyr_link.Common.{ℕ, ℤ, Bool, List, [], ◌∷◌, Bytes, codes, Option, none, some}
use disapyr_link.Model.{Error, error_text, Result, ok, err}
use disapyr_link.Strings.{Unicode, to_lower}
use disapyr_link.Http.{set_header, write, http_error, World, error, log, respond}
use disapyr_link.Handler.Pages.{find_template, parse_pages, add_page}
use disapyr_link.Repository.{LogRow}

-- What the database sends for a query of many rows: an error at once; or rows, with an error if the
-- connection breaks behind them.
pub data Reply {ℓ} (A : Type ℓ) : Type ℓ where
  failed : Bytes → Reply A
  answered : List A → Option Bytes → Reply A

-- logLevelCount
pub record LogLevelCount : Type 0 where
  pub level : Bytes
  pub level_class : Bytes
  pub count : ℕ

-- logRow
pub record ShownRow : Type 0 where
  pub id : ℕ
  pub ts : ℤ
  pub level : Bytes
  pub level_class : Bytes
  pub msg : Bytes
  pub attrs : Bytes

-- The totals of the events.
pub record SecretStats : Type 0 where
  pub created : ℕ
  pub retrieved : ℕ
  pub expired : ℕ

-- partialData
pub record PartialData : Type 0 where
  pub rows : List ShownRow
  pub total : ℕ
  pub page : ℕ
  pub next_page : ℤ
  pub prev_page : ℤ
  pub level : Bytes
  pub window : Bytes
  pub has_more : Bool
  pub page_size : ℕ
  pub clear_msg : Bytes

-- healthData
pub record HealthData : Type 0 where
  pub app_status : Bytes
  pub db_status : Bytes
  pub db_error : Bytes
  pub db_total_conn : ℕ
  pub db_idle_conn : ℕ
  pub db_max_conn : ℕ
  pub uptime : Bytes
  pub go_version : Bytes
  pub log_summary : List LogLevelCount
  pub initial_logs : List ShownRow
  pub total_logs : ℕ
  pub secrets : SecretStats

pub data PageData : Type 0 where
  health : HealthData → PageData
  logs : PartialData → PageData

abbrev pub Template : Type 0
Template = PageData → Bytes × Option Error

abbrev pub Templates : Type 0
Templates = List (Bytes × Template)

abbrev pub health_page : Bytes
health_page = codes "health"

abbrev pub partial_page : Bytes
partial_page = codes "health_logs_partial"

abbrev pub with_partial : Result Template → Result Templates → Result Templates
with_partial partial (err e) = err e
with_partial partial (ok pages) = add_page partial_page partial (ok pages)

-- parseAdminTemplates: the page with its layout, then the partial without one.
unfoldable pub parse_admin_templates :
    (Bytes → Result Template) → Result Template → Result Templates
unfolding parse_pages
parse_admin_templates parse partial = with_partial partial (parse_pages parse (health_page ∷ []))

-- What an AdminHandler keeps besides its pool and its logger.
pub record AdminHandler : Type 0 where
  pub admin_user : Bytes
  pub admin_password : Bytes
  pub start_time : ℤ
  pub templates : Templates

abbrev pub with_admin_templates : Bytes → Bytes → ℤ → Result Templates → Result AdminHandler
with_admin_templates user password now (err e) = err e
with_admin_templates user password now (ok ts) =
    ok (record { admin_user = user; admin_password = password; start_time = now; templates = ts })

-- NewAdminHandler, at a time.
unfoldable pub new_admin_handler :
    Bytes → Bytes → ℤ → (Bytes → Result Template) → Result Template → Result AdminHandler
unfolding parse_admin_templates
new_admin_handler user password now parse partial =
    with_admin_templates user password now (parse_admin_templates parse partial)

-- The attributes of a row: indented if they are JSON, and as they are otherwise.
abbrev pub shown_attrs : (Bytes → Option Bytes) → Option Bytes → Bytes
shown_attrs pretty none = []
shown_attrs pretty (some []) = []
shown_attrs pretty (some (c ∷ raw)) = elim (pretty (c ∷ raw)) [ none ↦ c ∷ raw | some text ↦ text ]

unfoldable pub shown_row : Unicode → (Bytes → Option Bytes) → LogRow → ShownRow
unfolding to_lower
shown_row u pretty row = record {
  id = row.id;
  ts = row.ts;
  level = row.level;
  level_class = to_lower u row.level;
  msg = row.msg;
  attrs = shown_attrs pretty row.attrs;
}

abbrev log_failure : Bytes → Option Error → World → World
log_failure text none w = w
log_failure text (some e) w = log error text ((codes "error", error_text e) ∷ []) w

abbrev pub shown_page : Bytes → Option Template → PageData → World → World
shown_page text none input w = respond (http_error (codes "template not found") 500) w
shown_page text (some t) input w =
    let (page, failure) = t input in
    log_failure text failure (
      respond
        (λ out. write page (record out {
          headers =
              set_header (codes "Content-Type") (codes "text/html; charset=utf-8") out.headers;
        }))
        w)

-- The end of the three handlers: the template of a name, and the text that is logged if it fails.
unfoldable pub show_page : Templates → Bytes → Bytes → PageData → World → World
unfolding find_template http_error write set_header
show_page ts name text input w = shown_page text (find_template name ts) input w
