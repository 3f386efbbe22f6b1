-- ===== src/Server/Serving/Reading.antt =====
-- What a request with the method GET leaves in the tables of the server that cmd/server/main.go starts.
use disapyr_link.Common.{ℕ, ◌≡◌, true, []}
use disapyr_link.Http.{Request, World}
use disapyr_link.Handler.RateLimit.{Buckets}
use disapyr_link.Server.Routes.{Turn, Limiters}
use disapyr_link.Server.Routes.Reading.{KeepsDb}
use disapyr_link.Server.Routes.Safe.{serve-get_db}
use disapyr_link.Server.Routes.Spec.{is_get}
use disapyr_link.Server.Start.{Running}
use disapyr_link.Server.Serving.{Outside, Fate, deps_of, serve_running}
use disapyr_link.Server.Serving.Logged.{IsLogged, serve_running-IsLogged}

-- Reading is safe: when the writer of the log has caught up, a request with the method GET or HEAD has
-- changed nothing in the tables but for rows added behind those of app_logs, whatever its path, its headers,
-- the level of the log handler and the answers of the environment are, if the file server and the redirect
-- change no table. So the link to a secret can be opened, previewed or scanned, and the secret is still there.
pub serve_running-reading :
    (k : Buckets) (o : Outside) (s : Running k) (e : Turn) (fates : ℕ → Fate) (l : Limiters k)
    (r : Request) (w : World)
    → KeepsDb o.files
    → KeepsDb o.moved
    → is_get r.method ≡ true
    → IsLogged w.db (serve_running k o s e fates l r w).1.0.db
unfolding deps_of
serve_running-reading k o s e fates l r w files moved reading =
    serve_running-IsLogged k o s e fates l r w
      (serve-get_db k (deps_of k o s) e l r (record w { logs = [] }) files moved reading)
