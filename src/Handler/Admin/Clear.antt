-- ===== src/Handler/Admin/Clear.antt =====
-- `ClearLogs` of internal/handler/admin.go. `Request.FormValue` is an argument.
pub mod Laws
mod Tests
use disapyr_link.Common.{
  ℕ, ℤ, pos, ltb_ℤ, not, List, [], ◌∷◌, ◌++◌, Bytes, same, keep, length, if◌then◌else◌, codes,
  Option,
}
use disapyr_link.Model.{error_text, Result, ok, err}
use disapyr_link.Repository.{Db, Call, settle, LogRow}
use disapyr_link.Encoding.Decimal.{itoa}
use disapyr_link.Http.{Request, World, Handler, returned, warn, log, respond, http_error}
use disapyr_link.Handler.Admin.{UrlHost, same_origin, window_to_interval, human_window}
use disapyr_link.Handler.Admin.Views.{logs, Templates, partial_page, show_page}
use disapyr_link.Handler.Admin.Health.{Browser, found_rows, log_query, page_data}

-- The two DELETE statements: all rows, or those before a time.
unfoldable pub delete_logs : (ℤ → Bytes → ℤ) → Call → Bytes → Db → Db × Result ℕ
unfolding window_to_interval
delete_logs ago c older_than db =
    if same older_than []
    then (record db { app_logs = [] }, ok (length db.app_logs))
    else (let old = λ (row : LogRow). ltb_ℤ row.ts (ago c.now (window_to_interval older_than)) in
        (
          record db { app_logs = keep (λ row. not (old row)) db.app_logs },
          ok (length (keep old db.app_logs)),
        ))

abbrev pub clear_message : Bytes → Bytes
clear_message older_than =
    if same older_than []
    then codes "All logs cleared."
    else codes "Logs older than " ++ (human_window older_than ++ codes " cleared.")

abbrev pub cleared_attrs : Bytes → ℕ → Request → List (Bytes × Bytes)
cleared_attrs older_than n r =
    (codes "older_than", older_than)
    ∷ (codes "rows_deleted", itoa (pos n))
    ∷ (codes "remote_addr", r.remote_addr)
    ∷ []

-- What follows the DELETE, on the tables that it leaves.
abbrev pub after_delete :
    Browser → Templates → Call → Call → Bytes → Request → World → Db × Result ℕ → World
after_delete b ts c c' older_than r w (db, err e) =
    respond (http_error (codes "failed to clear logs: " ++ error_text e) 500) (
      log warn (codes "clear logs failed")
        ((codes "older_than", older_than) ∷ (codes "error", error_text e) ∷ [])
        (record w { db = db }))
after_delete b ts c c' older_than r w (db, ok n) =
    show_page ts partial_page (codes "clear logs partial execute")
      (logs (
        page_data 0 [] (codes "24h") (clear_message older_than)
          (found_rows b c c' db.app_logs [] (codes "24h") 0)))
      (log_query c.verdict c'.verdict (
        log warn (codes "logs cleared by admin") (cleared_attrs older_than n r)
          (record w { db = db })))

-- ClearLogs, with the calls of its three statements.
unfoldable pub clear_logs :
    Browser
    → (Bytes → Option UrlHost)
    → (Request → Bytes → Bytes)
    → Templates
    → Call
    → Call
    → Call
    → Handler
unfolding same_origin http_error delete_logs page_data show_page human_window
clear_logs b parse form ts c c' c'' r w =
    if not (same_origin b.unicode parse r)
    then (respond (http_error (codes "Forbidden: cross-origin request") 403) w, returned)
    else (let older_than = form r (codes "older_than") in
        (
          after_delete b ts c' c'' older_than r w
              (settle c.verdict w.db (delete_logs b.ago c older_than w.db)),
          returned,
        ))
