-- ===== src/Server/Routes/Handled.antt =====
-- What the handlers behind the routes of cmd/server/main.go keep of the tables, if the three operations
-- that change them keep it.
use disapyr_link.Common.{◌≡◌, refl, true, Bytes, sym, subst}
use disapyr_link.Repository.{Db, store, fetch_and_delete}
use disapyr_link.Model.{CreateSecretInput, ok}
use disapyr_link.Service.{generate_token, retrieve}
use disapyr_link.Http.{Request, World, Handler}
use disapyr_link.Handler.RateLimit.{Buckets, limit}
use disapyr_link.Handler.Secrets.{reveal_secret}
use disapyr_link.Handler.Secrets.Kept.{create_secret_ind, shown-db}
use disapyr_link.Handler.Admin.{basic_auth, admitted}
use disapyr_link.Handler.Admin.Clear.{clear_logs}
use disapyr_link.Server.Routes.{
  Target, static_files, index, create, page, reveal, health, health_logs, clear, Deps, Turn,
  Limiters, handle,
}
use disapyr_link.Server.Routes.Reading.{
  serve_index-KeepsDb, serve_page-KeepsDb, serve_health-KeepsDb, serve_health_logs-KeepsDb,
}
use disapyr_link.Server.Routes.Keeps.{Keeps, related, basic_auth-Keeps, limit-Keeps}

module _ (R : Db → Db → Type 0) (reflexive : (db : Db) → R db db) (k : Buckets) (d : Deps)
    (e : Turn) (s : Limiters k) where
  -- Behind the guard, only credentials that it admits count.
  guarded-Keeps :
      (next : Handler) (r : Request) (w : World)
      → (admitted d.sha d.admin_user d.admin_password (d.credentials r) ≡ true
          → R w.db (next r w).0.db)
      → R w.db
          (limit k d.unicode d.net e.clock s.for_health
            (basic_auth d.sha d.credentials d.admin_user d.admin_password next)
            r
            w).1.0.db
  guarded-Keeps next r w h =
      limit-Keeps R reflexive k d.unicode d.net e.clock s.for_health _ r w
        (basic_auth-Keeps R reflexive d.sha d.credentials d.admin_user d.admin_password next r w h)

  pub handle-Keeps :
      (t : Target) (r : Request) (w : World)
      → Keeps R reflexive d.files
      → ((token : Bytes) (input : CreateSecretInput)
          → generate_token e.answers.random ≡ ok token
          → R w.db
              (store e.answers.now e.answers.main_call e.answers.event_call w.db token input).0)
      → (t ≡ reveal
          → R w.db (fetch_and_delete e.answers.main_call e.answers.event_call w.db r.token).0)
      → (admitted d.sha d.admin_user d.admin_password (d.credentials r) ≡ true
          → R w.db
              (clear_logs d.browser d.url_host d.form d.admin_pages e.delete_call e.count_call
                e.rows_call r w).0.db)
      → R w.db (handle k d e s t r w).1.0.db
  unfolding handle reveal_secret retrieve
  handle-Keeps static_files r w files stores reveals clears = files r w
  handle-Keeps index r w files stores reveals clears =
      related R reflexive (serve_index-KeepsDb d.pages d.max_bytes r w)
  handle-Keeps page r w files stores reveals clears =
      related R reflexive (serve_page-KeepsDb d.pages r w)
  handle-Keeps create r w files stores reveals clears =
      limit-Keeps R reflexive k d.unicode d.net e.clock s.for_create _ r w
        (create_secret_ind (R w.db) d.decode d.max_bytes e.answers r w (reflexive w.db) stores)
  handle-Keeps reveal r w files stores reveals clears =
      limit-Keeps R reflexive k d.unicode d.net e.clock s.for_reveal _ r w
        (subst (R w.db) (sym (shown-db w _)) (reveals refl))
  handle-Keeps health r w files stores reveals clears =
      guarded-Keeps _ r w
        (λ a. related R reflexive (serve_health-KeepsDb d.browser d.admin_pages e.checkup r w))
  handle-Keeps health_logs r w files stores reveals clears = guarded-Keeps _ r w (λ a.
      related R reflexive
        (serve_health_logs-KeepsDb d.browser d.query d.admin_pages e.count_call e.rows_call r w))
  handle-Keeps clear r w files stores reveals clears = guarded-Keeps _ r w clears
