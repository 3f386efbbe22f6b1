-- ===== src/Server/Routes/Reading.antt =====
-- The handlers behind the routes of cmd/server/main.go that touch no table.
use disapyr_link.Common.{
  ℕ, ℤ, ◌≡◌, refl, ◌∙◌, inl, inr, Bytes, same, Bool-cases, codes, Option, none, some,
}
use disapyr_link.Model.{Error}
use disapyr_link.Repository.{Call}
use disapyr_link.Strings.{Unicode}
use disapyr_link.Http.{Request, World, Handler}
use disapyr_link.Handler.Pages as Pages
use disapyr_link.Handler.Pages.{find_template, rendered, render, serve_index, serve_page, Data}
use disapyr_link.Handler.Admin.Health.{
  Browser, Checkup, Ping, unhealthy, healthy, log_ping, log_query, serve_health, serve_health_logs,
}
use disapyr_link.Handler.Admin.Views as Views
use disapyr_link.Handler.Admin.Views.{Reply, failed, answered, health_page, partial_page}
use disapyr_link.Handler.Admin.Stats.{query_secret_stats, query_log_summary}
use disapyr_link.Handler.Admin.Clear.Laws.{log_query-db, show_page-db}

-- A handler that leaves the tables alone.
abbrev pub KeepsDb : Handler → Type 0
KeepsDb next = (r : Request) (w : World) → (next r w).0.db ≡ w.db

rendered-db :
    (name : Bytes) (t : Option Pages.Template) (input : Data) (w : World)
    → (rendered name t input w).db ≡ w.db
rendered-db name none input w = refl
rendered-db name (some t) input w = go (t input) refl
  where
    go : (x : Bytes × Option Error) → t input ≡ x → (rendered name (some t) input w).db ≡ w.db
    go (text, none) e = rw e refl
    go (text, some f) e = rw e refl

pub serve_index-KeepsDb :
    (ts : Pages.Templates) (max_bytes : ℤ) → KeepsDb (serve_index ts max_bytes)
unfolding serve_index render
serve_index-KeepsDb ts max_bytes r w = elim (Bool-cases (same r.path (codes "/"))) [
  | inl e ↦ rw e (rendered-db _ (find_template _ ts) _ w)
  | inr e ↦ rw e refl
]

pub serve_page-KeepsDb : (ts : Pages.Templates) → KeepsDb (serve_page ts)
unfolding serve_page render
serve_page-KeepsDb ts r w = rendered-db _ (find_template _ ts) _ w

log_ping-db : (p : Ping) (w : World) → (log_ping p w).db ≡ w.db
log_ping-db (unhealthy text) w = refl
log_ping-db (healthy a b c) w = refl

query_log_summary-db :
    (u : Unicode) (q : Reply (Bytes × ℕ)) (w : World) → (query_log_summary u q w).0.db ≡ w.db
unfolding query_log_summary
query_log_summary-db u (failed text) w = refl
query_log_summary-db u (answered rows e) w = refl

query_secret_stats-db : (q : Reply (Bytes × ℕ)) (w : World) → (query_secret_stats q w).0.db ≡ w.db
unfolding query_secret_stats
query_secret_stats-db (failed text) w = refl
query_secret_stats-db (answered rows none) w = refl
query_secret_stats-db (answered rows (some e)) w = refl

pub serve_health-KeepsDb :
    (b : Browser) (ts : Views.Templates) (k : Checkup) → KeepsDb (serve_health b ts k)
unfolding serve_health
serve_health-KeepsDb b ts k r w =
    let w₀ = log_ping k.ping w in
    let w₁ = (query_log_summary b.unicode k.summary w₀).0 in
    let w₂ = (query_secret_stats k.stats w₁).0 in
    show_page-db ts health_page _ _ (log_query k.count_call.verdict k.rows_call.verdict w₂)
    ∙ log_query-db k.count_call.verdict k.rows_call.verdict w₂
    ∙ query_secret_stats-db k.stats w₁
    ∙ query_log_summary-db b.unicode k.summary w₀
    ∙ log_ping-db k.ping w

pub serve_health_logs-KeepsDb :
    (b : Browser) (query : Request → Bytes → Bytes) (ts : Views.Templates) (c c' : Call)
    → KeepsDb (serve_health_logs b query ts c c')
unfolding serve_health_logs
serve_health_logs-KeepsDb b query ts c c' r w =
    show_page-db ts partial_page _ _ (log_query c.verdict c'.verdict w)
    ∙ log_query-db c.verdict c'.verdict w
