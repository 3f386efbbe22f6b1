-- ===== src/Server/Start/Configured.antt =====
-- What the server that cmd/server/main.go starts has taken from its environment.
use disapyr_link.Common.{
  inl, inr, ◌≡◌, refl, ap, Bool, true, false, List, [], Bytes, same, Bool-cases, Option, same_iff,
  sym, codes, subst,
}
use disapyr_link.Model.{Result, ok, err}
use disapyr_link.Http.{LogRecord}
use disapyr_link.Config.Load.{Env, get_env, load}
use disapyr_link.Database.{Pool, connect}
use disapyr_link.Handler.Pages as Pages
use disapyr_link.Handler.Pages.{PageHandler, with_templates, parse_templates, new_handler}
use disapyr_link.Handler.Admin.Views as Views
use disapyr_link.Handler.Admin.Views.{
  with_admin_templates, parse_admin_templates, new_admin_handler,
}
use disapyr_link.Handler.RateLimit.{Buckets}
use disapyr_link.Server.Start.{
  Surroundings, Running, runs, with_admin, with_handlers, with_pool, start,
}
use disapyr_link.Server.Start.Laws.{running_or}

-- The handlers have what the configuration and the environment say.
pub record IsConfigured (k : Buckets) (x : Surroundings) (s : Running k) : Type 0 where
  pub config : s.config ≡ load x.env
  pub max_bytes : s.pages.max_bytes ≡ s.config.max_secret_bytes
  pub admin_user : s.admin.admin_user ≡ x.env (codes "ADMIN_USER")
  pub admin_password : s.admin.admin_password ≡ x.env (codes "ADMIN_PASSWORD")

-- A variable that is not set is empty.
get_env-nil : (env : Env) (key : Bytes) → get_env env key [] ≡ env key
unfolding get_env
get_env-nil env key = elim (Bool-cases (same (env key) [])) [
  | inl h ↦ rw h (sym ((same_iff (env key) []).0 h))
  | inr h ↦ rw h refl
]

load-admin :
    (env : Env)
    → ((load env).admin_user ≡ env (codes "ADMIN_USER"))
      × ((load env).admin_password ≡ env (codes "ADMIN_PASSWORD"))
unfolding load
load-admin env = (get_env-nil env (codes "ADMIN_USER"), get_env-nil env (codes "ADMIN_PASSWORD"))

with_admin_templates-kept :
    (k : Buckets) (x : Surroundings) (p : Option Pool) (pages : PageHandler)
    (out : Result Views.Templates) {logs : List LogRecord} {s : Running k}
    → pages.max_bytes ≡ (load x.env).max_secret_bytes
    → with_admin k
        (load x.env)
        p
        pages
        (with_admin_templates (load x.env).admin_user (load x.env).admin_password x.start_time out)
      ≡ runs logs s
    → IsConfigured k x s
unfolding running_or
with_admin_templates-kept k x p pages (err e) m h = absurd cc
with_admin_templates-kept k x p pages (ok ts) {logs} {s} m h =
    subst (IsConfigured k x) (ap (running_or k s) h) (record {
      config = refl;
      max_bytes = m;
      admin_user = (load-admin x.env).0;
      admin_password = (load-admin x.env).1;
    })

with_templates-kept :
    (k : Buckets) (x : Surroundings) (p : Option Pool) (out : Result Pages.Templates)
    {logs : List LogRecord} {s : Running k}
    → with_handlers k x (load x.env) p (with_templates (load x.env).max_secret_bytes out)
      ≡ runs logs s
    → IsConfigured k x s
unfolding new_admin_handler
with_templates-kept k x p (err e) h = absurd cc
with_templates-kept k x p (ok ts) h =
    with_admin_templates-kept k x p _ (parse_admin_templates x.parse_admin_page x.parse_partial)
      refl h

with_pool-kept :
    (k : Buckets) (x : Surroundings) (out : Option Pool × Result (Unit {0})) {logs : List LogRecord}
    {s : Running k}
    → with_pool k x (load x.env) out ≡ runs logs s
    → IsConfigured k x s
unfolding new_handler
with_pool-kept k x (p, err e) h = absurd cc
with_pool-kept k x (p, ok u) h = with_templates-kept k x p (parse_templates x.parse_page) h

-- The server runs with the limit, the user and the password of its environment.
pub start-IsConfigured :
    (k : Buckets) (x : Surroundings) (print_config : Bool) {logs : List LogRecord} {s : Running k}
    → start k x print_config ≡ runs logs s
    → IsConfigured k x s
unfolding start
start-IsConfigured k x true h = absurd cc
start-IsConfigured k x false h = with_pool-kept k x (connect x.new_pool x.ping x.exec) h
