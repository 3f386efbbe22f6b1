-- ===== src/Handler/Admin/Clear/Laws.antt =====
-- What `ClearLogs` of internal/handler/admin.go deletes, and when.
use disapyr_link.Common.{
  if_ind, List, ℕ, ltb_ℤ, ◌≡◌, refl, ◌≢◌, ◌⊎◌, inl, inr, Bool, false, not, [], arith, Bytes, same,
  same_iff, keep, any, Bool-cases, sym, codes, Option, none, some, subst,
}
use disapyr_link.Model.{Error, Result, ok, err}
use disapyr_link.Repository.{Db, Call, Verdict, completed, refused, lost, settle, LogRow}
use disapyr_link.Repository.Fetch.{settle_ind}
use disapyr_link.Repository.Rows.{keep-keep_disjoint, any-keep-not}
use disapyr_link.Handler.Pages.{find_template}
use disapyr_link.Http.{Request, World, http_error, write, write_header, status}
use disapyr_link.Handler.Admin.{UrlHost, same_origin, window_to_interval}
use disapyr_link.Handler.Admin.Views.{Templates, Template, PageData, shown_page, show_page}
use disapyr_link.Handler.Admin.Health.{Browser, log_query}
use disapyr_link.Handler.Admin.Clear.{delete_logs, after_delete, clear_logs}

-- A row is before the time that the request names, by the clock of the DELETE.
abbrev pub is_old : Browser → Call → Bytes → LogRow → Bool
is_old b c older_than row = ltb_ℤ row.ts (b.ago c.now (window_to_interval older_than))

settled :
    (v : Verdict) (db : Db) (done : Db × Result ℕ)
    → ((settle v db done).0 ≡ db) ⊎ ((settle v db done).0 ≡ done.0)
settled completed db done = inr refl
settled (refused text) db done = inl refl
settled (lost text) db (rest, n) = inr refl

pub log_query-db : (v v' : Verdict) (w : World) → (log_query v v' w).db ≡ w.db
log_query-db completed completed w = refl
log_query-db completed (refused text) w = refl
log_query-db completed (lost text) w = refl
log_query-db (refused text) v' w = refl
log_query-db (lost text) v' w = refl

shown_page-db :
    (text : Bytes) (t : Option Template) (input : PageData) (w : World)
    → (shown_page text t input w).db ≡ w.db
shown_page-db text none input w = refl
shown_page-db text (some t) input w = go (t input) refl
  where
    go : (r : Bytes × Option Error) → t input ≡ r → (shown_page text (some t) input w).db ≡ w.db
    go (page, none) e = rw e refl
    go (page, some x) e = rw e refl

pub show_page-db :
    (ts : Templates) (name text : Bytes) (input : PageData) (w : World)
    → (show_page ts name text input w).db ≡ w.db
unfolding show_page
show_page-db ts name text input w = shown_page-db text (find_template name ts) input w

after_delete-db :
    (b : Browser) (ts : Templates) (c c' : Call) (older_than : Bytes) (r : Request) (w : World)
    (q : Db × Result ℕ)
    → (after_delete b ts c c' older_than r w q).db ≡ q.0
after_delete-db b ts c c' older_than r w (db, ok n) = rw (show_page-db, log_query-db) refl
after_delete-db b ts c c' older_than r w (db, err e) = refl

-- A request from a page of another site clears nothing: it is answered with the status 403, and the
-- tables are as they were, whatever the database would answer.
pub clear_logs-foreign :
    (b : Browser) (parse : Bytes → Option UrlHost) (form : Request → Bytes → Bytes) (ts : Templates)
    (c c' c'' : Call) (r : Request) (w : World)
    → same_origin b.unicode parse r ≡ false
    → w.out.sent ≡ none
    → (status (clear_logs b parse form ts c c' c'' r w).0 ≡ 403)
      × ((clear_logs b parse form ts c c' c'' r w).0.db ≡ w.db)
unfolding clear_logs http_error write write_header
clear_logs-foreign b parse form ts c c' c'' r w foreign fresh = rw (foreign, fresh) (refl, refl)

-- The two outcomes of a clearing with a window, on the tables.
pub record IsCleared (b : Browser) (c : Call) (window : Bytes) (db db' : Db) : Type 0 where
  pub recent :
      keep (λ row. not (is_old b c window row)) db'.app_logs
      ≡ keep (λ row. not (is_old b c window row)) db.app_logs
  pub old : (db' ≡ db) ⊎ (any (is_old b c window) db'.app_logs ≡ false)
  pub secrets : db'.secrets ≡ db.secrets
  pub events : db'.events ≡ db.events

delete_logs-IsCleared :
    (b : Browser) (c : Call) (db : Db) (window : Bytes)
    → window ≢ []
    → IsCleared b c window db (delete_logs b.ago c window db).0
unfolding delete_logs
delete_logs-IsCleared b c db window some_window =
    let bounded : same window [] ≡ false = ground (arith, same_iff window []) in
    rw bounded (record {
      recent =
          keep-keep_disjoint (λ row. not (is_old b c window row))
            (λ row. not (is_old b c window row)) db.app_logs (λ row h. h);
      old = inr (any-keep-not (is_old b c window) db.app_logs);
      secrets = refl;
      events = refl;
    })

unchanged-IsCleared :
    (b : Browser) (c : Call) (db : Db) (window : Bytes) → IsCleared b c window db db
unchanged-IsCleared b c db window = record {
  recent = refl;
  old = inl refl;
  secrets = refl;
  events = refl;
}

-- Whatever the database answers, a clearing with a window keeps every record that is not older than
-- the window, in its place, and the other tables; and all is as it was, or no older record is left.
pub clear_logs-IsCleared :
    (b : Browser) (parse : Bytes → Option UrlHost) (form : Request → Bytes → Bytes) (ts : Templates)
    (c c' c'' : Call) (r : Request) (w : World) (window : Bytes)
    → form r (codes "older_than") ≡ window
    → window ≢ []
    → IsCleared b c window w.db (clear_logs b parse form ts c c' c'' r w).0.db
unfolding clear_logs
clear_logs-IsCleared b parse form ts c c' c'' r w window asked some_window =
    elim (Bool-cases (same_origin b.unicode parse r)) [
      | inl e ↦
          let deleted = delete_logs b.ago c (form r (codes "older_than")) w.db in
          let left = settle c.verdict w.db deleted in
          let cleared : IsCleared b c window w.db deleted.0 =
            subst (λ o. IsCleared b c window w.db (delete_logs b.ago c o w.db).0) (sym asked)
              (delete_logs-IsCleared b c w.db window some_window) in
          rw e (
            subst (IsCleared b c window w.db)
              (sym (after_delete-db b ts c' c'' (form r (codes "older_than")) r w left))
              (elim (settled c.verdict w.db deleted) [
                | inl kept ↦
                    subst (IsCleared b c window w.db) (sym kept)
                      (unchanged-IsCleared b c w.db window)
                | inr done ↦ subst (IsCleared b c window w.db) (sym done) cleared
              ]))
      | inr e ↦ rw e (unchanged-IsCleared b c w.db window)
    ]

delete_logs-db :
    (b : Browser) (c : Call) (db : Db) (window : Bytes)
    → (delete_logs b.ago c window db).0
      ≡ record db { app_logs = (delete_logs b.ago c window db).0.app_logs }
unfolding delete_logs
delete_logs-db b c db window =
    if_ind (λ (q : Db × Result ℕ). q.0 ≡ record db { app_logs = q.0.app_logs }) (same window [])
      (λ h. refl) (λ h. refl)

-- What holds of the tables before a clearing, and with any log, holds after it.
pub clear_logs_ind {ℓ} :
    (P : Db → Type ℓ) (b : Browser) (parse : Bytes → Option UrlHost)
    (form : Request → Bytes → Bytes) (ts : Templates) (c c' c'' : Call) (r : Request) (w : World)
    → P w.db
    → ((rows : List LogRow) → P (record w.db { app_logs = rows }))
    → P (clear_logs b parse form ts c c' c'' r w).0.db
unfolding clear_logs
clear_logs_ind P b parse form ts c c' c'' r w before after =
    elim (Bool-cases (same_origin b.unicode parse r)) [
      | inl e ↦
          let window = form r (codes "older_than") in
          let deleted = delete_logs b.ago c window w.db in
          let left = settle c.verdict w.db deleted in
          rw e (
            subst P (sym (after_delete-db b ts c' c'' window r w left)) (
              settle_ind P c.verdict w.db deleted before
                (subst P (sym (delete_logs-db b c w.db window)) (after _))))
      | inr e ↦ rw e before
    ]
