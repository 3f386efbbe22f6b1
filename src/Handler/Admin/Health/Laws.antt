-- ===== src/Handler/Admin/Health/Laws.antt =====
-- What the health page of internal/handler/admin.go is written from.
use disapyr_link.Common.{
  ℕ, ◌+◌, ◌≡◌, refl, ap, ◌∙◌, List, [], ◌++◌, Bytes, length, sym, codes, Option, none, some, subst,
}
use disapyr_link.Model.{Error}
use disapyr_link.Repository.{Db, Verdict, completed, refused, lost}
use disapyr_link.Repository.Invariant.{IsValid}
use disapyr_link.Repository.Trace.{Operation, run}
use disapyr_link.Repository.Ledger.{IsBalanced, AreClean}
use disapyr_link.Strings.{Unicode}
use disapyr_link.Http.{Request, World, write, write_header}
use disapyr_link.Handler.Pages.{find_template}
use disapyr_link.Handler.Admin.Views.{
  Reply, failed, answered, PageData, HealthData, health, Template, Templates, health_page,
  shown_page, show_page,
}
use disapyr_link.Handler.Admin.Stats.{query_secret_stats, query_log_summary}
use disapyr_link.Handler.Admin.Stats.Laws.{IsGroupingOf, AreSmall, query_secret_stats-run}
use disapyr_link.Handler.Admin.Health.{
  Browser, Checkup, Ping, unhealthy, healthy, log_ping, log_query, health_data, serve_health,
  found_rows,
}

-- Logging leaves the response alone.
log_query-out : (v v' : Verdict) (w : World) → (log_query v v' w).out ≡ w.out
log_query-out completed completed w = refl
log_query-out completed (refused text) w = refl
log_query-out completed (lost text) w = refl
log_query-out (refused text) v' w = refl
log_query-out (lost text) v' w = refl

log_ping-out : (p : Ping) (w : World) → (log_ping p w).out ≡ w.out
log_ping-out (unhealthy text) w = refl
log_ping-out (healthy a b c) w = refl

query_log_summary-out :
    (u : Unicode) (q : Reply (Bytes × ℕ)) (w : World) → (query_log_summary u q w).0.out ≡ w.out
unfolding query_log_summary
query_log_summary-out u (failed text) w = refl
query_log_summary-out u (answered rows e) w = refl

query_secret_stats-out :
    (q : Reply (Bytes × ℕ)) (w : World) → (query_secret_stats q w).0.out ≡ w.out
unfolding query_secret_stats
query_secret_stats-out (failed text) w = refl
query_secret_stats-out (answered rows none) w = refl
query_secret_stats-out (answered rows (some e)) w = refl

-- The numbers do not depend on what was logged before.
query_secret_stats-stats :
    (q : Reply (Bytes × ℕ)) (w v : World) → (query_secret_stats q w).1 ≡ (query_secret_stats q v).1
unfolding query_secret_stats
query_secret_stats-stats (failed text) w v = refl
query_secret_stats-stats (answered rows none) w v = refl
query_secret_stats-stats (answered rows (some e)) w v = refl

shown_page-body :
    (text : Bytes) (t : Template) (input : PageData) (w : World)
    → (shown_page text (some t) input w).out.body ≡ w.out.body ++ (t input).0
unfolding write write_header
shown_page-body text t input w = go (t input) refl
  where
    go :
        (r : Bytes × Option Error)
        → t input ≡ r
        → (shown_page text (some t) input w).out.body ≡ w.out.body ++ (t input).0
    go (page, none) e = rw e refl
    go (page, some x) e = rw e refl

show_page-body :
    (ts : Templates) (name text : Bytes) (t : Template) (input : PageData) (w : World)
    → find_template name ts ≡ some t
    → (show_page ts name text input w).out.body ≡ w.out.body ++ (t input).0
unfolding show_page
show_page-body ts name text t input w h = rw h (shown_page-body text t input w)

-- The health page is written by its template from numbers that add up: on the tables that any history
-- leaves in which the database loses no answer and writes each event, from tables that are valid and
-- balanced, if the query of the totals is answered with the sums of the events and these fit an int64,
-- the number of secrets created that the template is given is the sum of those retrieved, those expired
-- and the rows of the table of secrets.
pub serve_health-balanced :
    (b : Browser) (ts : Templates) (t : Template) (k : Checkup) (r : Request) (w : World)
    (os : List Operation) (db : Db) (rows : List (Bytes × ℕ))
    → find_template health_page ts ≡ some t
    → k.stats ≡ answered rows none
    → AreClean os
    → IsValid db
    → IsBalanced db
    → w.db ≡ run os db
    → AreSmall w.db.events
    → IsGroupingOf rows w.db.events
    → (d : HealthData) × ((serve_health b ts k r w).0.out.body ≡ w.out.body ++ (t (health d)).0)
      × (d.secrets.created ≡ d.secrets.retrieved + d.secrets.expired + length w.db.secrets)
unfolding serve_health health_data
serve_health-balanced b ts t k r w os db rows found replied clean v balanced reached small g =
    let w₀ = log_ping k.ping w in
    let w₁ = (query_log_summary b.unicode k.summary w₀).0 in
    let w₂ = (query_secret_stats k.stats w₁).0 in
    let w₃ = log_query k.count_call.verdict k.rows_call.verdict w₂ in
    let out : w₃.out ≡ w.out =
      log_query-out k.count_call.verdict k.rows_call.verdict w₂
      ∙ query_secret_stats-out k.stats w₁
      ∙ query_log_summary-out b.unicode k.summary w₀
      ∙ log_ping-out k.ping w in
    let numbers : (query_secret_stats k.stats w₁).1
        ≡ (query_secret_stats (answered rows none) w).1 =
      ap (λ q. (query_secret_stats q w₁).1) replied
      ∙ query_secret_stats-stats (answered rows none) w₁ w in
    let stats = query_secret_stats k.stats w₁ in
    let d =
      health_data k (query_log_summary b.unicode k.summary w₀).1 stats.1
        (found_rows b k.count_call k.rows_call w.db.app_logs [] (codes "24h") 0) in
    let sum =
      query_secret_stats-run os db rows w clean v balanced
        (subst (λ x. AreSmall x.events) reached small)
        (subst (λ x. IsGroupingOf rows x.events) reached g) in
    (
      d,
      show_page-body ts health_page (codes "health template execute") t (health d) w₃ found
          ∙ ap (λ o. o.body ++ (t (health d)).0) out,
      ap (λ s. s.created) numbers
          ∙ sum
          ∙ ap (λ s. s.retrieved + s.expired + length (run os db).secrets) (sym numbers)
          ∙ ap (λ x. stats.1.retrieved + stats.1.expired + length x.secrets) (sym reached),
    )
