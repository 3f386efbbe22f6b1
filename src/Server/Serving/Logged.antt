-- ===== src/Server/Serving/Logged.antt =====
-- What a request to the server that cmd/server/main.go starts leaves in app_logs by what it logs.
use disapyr_link.Common.{ℕ, ◌≡◌, ap, ◌∙◌, List, [], ◌++◌}
use disapyr_link.Repository.{Db, LogRow}
use disapyr_link.Http.{Request, World}
use disapyr_link.Handler.RateLimit.{Buckets}
use disapyr_link.Logger.Writer.Laws.{insert_all-rows, written_rows}
use disapyr_link.Server.Routes.{Turn, Limiters, serve}
use disapyr_link.Server.Start.{Running}
use disapyr_link.Server.Serving.{Outside, Fate, queued_records, deps_of, serve_running}

-- The tables are as before, but for rows that are added behind those of app_logs.
abbrev pub IsLogged : Db → Db → Type 0
IsLogged a b = (rows : List LogRow) × (b ≡ record a { app_logs = a.app_logs ++ rows })

module _ (k : Buckets) (o : Outside) (s : Running k) (e : Turn) (fates : ℕ → Fate) (l : Limiters k)
    (r : Request) (w : World) where
  -- A request whose handlers leave the tables alone only adds to app_logs.
  pub serve_running-IsLogged :
      (serve k (deps_of k o s) e l r (record w { logs = [] })).1.0.db ≡ w.db
      → IsLogged w.db (serve_running k o s e fates l r w).1.0.db
  unfolding serve_running
  serve_running-IsLogged h =
      let v = (serve k (deps_of k o s) e l r (record w { logs = [] })).1.0 in
      let rs = queued_records s.database fates 0 v.logs in
      (
        written_rows o.json rs,
        insert_all-rows o.json rs v.db
            ∙ ap (λ (db : Db). record db { app_logs = db.app_logs ++ written_rows o.json rs }) h,
      )
