-- ===== src/Server/Routes/Custody.antt =====
-- Who can take something out of the tables, through the routes of cmd/server/main.go.
use disapyr_link.Common.{◌≡◌, refl, ◌∙◌, ◌≢◌, false, arith, Bytes, some}
use disapyr_link.Model.{Secret}
use disapyr_link.Repository.{Db}
use disapyr_link.Repository.Rows.{In}
use disapyr_link.Repository.Invariant.{IsValid, store-IsValid, fetch_and_delete-IsValid}
use disapyr_link.Repository.Kept.{
  store-app_logs, fetch_and_delete-app_logs, store-In, fetch_and_delete-In,
}
use disapyr_link.Http.{Request, World}
use disapyr_link.Handler.RateLimit.{Buckets}
use disapyr_link.Handler.Admin.{admitted}
use disapyr_link.Handler.Admin.Clear.Laws.{clear_logs_ind}
use disapyr_link.Server.Routes.{reveal, Deps, Turn, Limiters, serve}
use disapyr_link.Server.Routes.Keeps.{Keeps, route_of, serve-Keeps}
use disapyr_link.Server.Routes.Handled.{handle-Keeps}

-- A row stays in the table of secrets.
abbrev pub Holds : Secret → Db → Db → Type 0
Holds x a b = In x a.secrets → In x b.secrets

abbrev pub holds : (x : Secret) (db : Db) → Holds x db db
holds x db h = h

-- The records of the log stay as they are.
abbrev pub SameLogs : Db → Db → Type 0
SameLogs a b = b.app_logs ≡ a.app_logs

abbrev pub same_logs : (db : Db) → SameLogs db db
same_logs db = refl

-- Tables that are valid stay valid.
abbrev pub StaysValid : Db → Db → Type 0
StaysValid a b = IsValid a → IsValid b

abbrev pub stays_valid : (db : Db) → StaysValid db db
stays_valid db v = v

module _ (k : Buckets) (d : Deps) (e : Turn) (s : Limiters k) (r : Request) (w : World) where
  -- A secret waits for its own token: a request that the mux does not send to the reveal route with the
  -- token of a row leaves this row in the table, whatever else it asks for and whatever the environment
  -- answers, if the file server and the redirect leave it there.
  pub serve-In :
      (x : Secret)
      → Keeps (Holds x) (holds x) d.files
      → Keeps (Holds x) (holds x) d.moved
      → route_of d r ≢ some (reveal, x.token)
      → In x w.db.secrets
      → In x (serve k d e s r w).1.0.db.secrets
  serve-In x files moved other = serve-Keeps (Holds x) (holds x) k d e s r w moved (λ v t token h.
      handle-Keeps (Holds x) (holds x) k d e s t (record r { token = token }) v files
        (λ u input drawn.
          store-In x e.answers.now e.answers.main_call e.answers.event_call v.db u input)
        (λ is_reveal.
          fetch_and_delete-In x e.answers.main_call e.answers.event_call v.db token
            (λ same_token. other (h ∙ λ i. some (is_reveal i, same_token i))))
        (λ a.
          clear_logs_ind (Holds x v.db) d.browser d.url_host d.form d.admin_pages e.delete_call
            e.count_call e.rows_call _ v (holds x v.db) (λ rows h. h)))

  -- No route deletes records of the log for a stranger: a request whose credentials the guard does not
  -- admit, whatever token the mux finds in its path, leaves them as they are, if the file server and the
  -- redirect do.
  pub serve-app_logs :
      Keeps SameLogs same_logs d.files
      → Keeps SameLogs same_logs d.moved
      → ((token : Bytes)
          → admitted d.sha d.admin_user d.admin_password
              (d.credentials (record r { token = token }))
            ≡ false)
      → (serve k d e s r w).1.0.db.app_logs ≡ w.db.app_logs
  serve-app_logs files moved stranger =
      serve-Keeps SameLogs same_logs k d e s r w moved (λ v t token h.
        handle-Keeps SameLogs same_logs k d e s t (record r { token = token }) v files
          (λ u input drawn.
            store-app_logs e.answers.now e.answers.main_call e.answers.event_call v.db u input)
          (λ is_reveal.
            fetch_and_delete-app_logs e.answers.main_call e.answers.event_call v.db token)
          (λ a. absurd (let q = stranger token in ground arith)))

  -- Tables that are valid stay valid, whatever is asked.
  pub serve-IsValid :
      Keeps StaysValid stays_valid d.files
      → Keeps StaysValid stays_valid d.moved
      → IsValid w.db
      → IsValid (serve k d e s r w).1.0.db
  serve-IsValid files moved = serve-Keeps StaysValid stays_valid k d e s r w moved (λ v t token h.
      handle-Keeps StaysValid stays_valid k d e s t (record r { token = token }) v files
        (λ u input drawn.
          store-IsValid e.answers.now e.answers.main_call e.answers.event_call v.db u input)
        (λ is_reveal. fetch_and_delete-IsValid e.answers.main_call e.answers.event_call v.db token)
        (λ a.
          clear_logs_ind (StaysValid v.db) d.browser d.url_host d.form d.admin_pages e.delete_call
            e.count_call e.rows_call _ v (stays_valid v.db)
            (λ rows valid. record { unique = valid.unique; known = valid.known })))
