-- ===== src/Server/Serving/Admission.antt =====
-- Whom the server that cmd/server/main.go starts lets see the administration pages.
use disapyr_link.Common.{
  ℕ, ◌≡◌, refl, ap, ◌∙◌, ◌≢◌, ◌||◌, Bool, true, false, List, [], arith, Bytes, same, same_iff,
  codes, Option, none, some, sym, subst,
}
use disapyr_link.Repository.{Db}
use disapyr_link.Http.{LogRecord, Request, Handler, World, status}
use disapyr_link.Handler.Admin.{admitted, basic_auth}
use disapyr_link.Handler.RateLimit.{Buckets, limit}
use disapyr_link.Server.Routes.{
  Target, static_files, index, create, page, reveal, health, health_logs, clear, Deps, Turn,
  Limiters, handle, serve,
}
use disapyr_link.Server.Routes.Keeps.{route_of}
use disapyr_link.Server.Routes.Success.{
  Redirects, Grants, limit-Grants, basic_auth-Grants, serve-Grants,
}
use disapyr_link.Server.Start.{Surroundings, Running, runs, start}
use disapyr_link.Server.Start.Configured.{start-IsConfigured}
use disapyr_link.Server.Serving.{Outside, Fate, deps_of, serve_running}

-- The routes of the administration pages.
abbrev pub is_admin : Target → Bool
is_admin static_files = false
is_admin index = false
is_admin create = false
is_admin page = false
is_admin reveal = false
is_admin health = true
is_admin health_logs = true
is_admin clear = true

-- A request with these credentials has the user and the password.
abbrev pub Bears : (Bytes → Bytes) → Bytes → Bytes → Option (Bytes × Bytes) → Type 0
Bears sha user pass c =
    (user ≢ [])
    × (pass ≢ [])
    × ((u : Bytes) × (p : Bytes) × (c ≡ some (u, p)) × (sha u ≡ sha user) × (sha p ≡ sha pass))

admitted-Bears :
    (sha : Bytes → Bytes) (user pass : Bytes) (c : Option (Bytes × Bytes))
    → (same user [] || same pass []) ≡ false
    → admitted sha user pass c ≡ true
    → Bears sha user pass c
admitted-Bears sha user pass none set h = absurd cc
admitted-Bears sha user pass (some (u, p)) set h = (
  (λ e. ground (arith, same_iff user [])),
  (λ e. ground (arith, same_iff pass [])),
  (
    u,
    p,
    refl,
    (same_iff (sha u) (sha user)).0 (ground arith),
    (same_iff (sha p) (sha pass)).0 (ground arith),
  ),
)

module _ (k : Buckets) (d : Deps) (e : Turn) (s : Limiters k) where
  -- The request bears the credentials that the guard asks for.
  abbrev Credited : Request → Db → Type 0
  Credited r db = Bears d.sha d.admin_user d.admin_password (d.credentials r)

  guarded-Grants :
      (next : Handler) (r : Request) (w : World)
      → w.out.sent ≡ none
      → Grants
          (Credited r)
          (limit k d.unicode d.net e.clock s.for_health
            (basic_auth d.sha d.credentials d.admin_user d.admin_password next)
            r
            w).1
  guarded-Grants next r w fresh =
      limit-Grants (Credited r) k d.unicode d.net e.clock s.for_health _ r w fresh (
        basic_auth-Grants (Credited r) d.sha d.credentials d.admin_user d.admin_password next r w
          fresh
          (λ set a good.
            admitted-Bears d.sha d.admin_user d.admin_password (d.credentials r) set a))

  handle-Grants :
      (x : Target) (r : Request) (w : World)
      → w.out.sent ≡ none
      → is_admin x ≡ true
      → Grants (Credited r) (handle k d e s x r w).1
  unfolding handle
  handle-Grants health r w fresh h = guarded-Grants _ r w fresh
  handle-Grants health_logs r w fresh h = guarded-Grants _ r w fresh
  handle-Grants clear r w fresh h = guarded-Grants _ r w fresh
  handle-Grants static_files r w fresh h = absurd cc
  handle-Grants index r w fresh h = absurd cc
  handle-Grants create r w fresh h = absurd cc
  handle-Grants page r w fresh h = absurd cc
  handle-Grants reveal r w fresh h = absurd cc

  serve-Credited :
      (x : Target) (token : Bytes) (r : Request) (w : World)
      → w.out.sent ≡ none
      → Redirects d.moved
      → route_of d r ≡ some (x, token)
      → is_admin x ≡ true
      → Grants (Credited (record r { token = token })) (serve k d e s r w).1
  serve-Credited x token r w fresh moved found admin =
      serve-Grants (Credited (record r { token = token })) k d e s r w fresh moved
        (λ v y u clear same_db h.
          let at_x : y ≡ x = ground arith in
          let at_token : u ≡ token = ground arith in
          subst
            (λ q.
              Grants (Credited (record r { token = token }))
                (handle k d e s y (record r { token = q }) v).1)
            (sym at_token)
            (handle-Grants y (record r { token = token }) v clear (ap is_admin at_x ∙ admin)))

-- The administration pages are seen only by their owner: when the server has started, a request for one of
-- their routes gets the status 200 only if ADMIN_USER and ADMIN_PASSWORD are both set in the environment
-- and the request has credentials with the hashes of these two, whatever the limiters, the tables and the
-- answers of the environment are, if the redirect of the mux does not answer with the status 200.
pub serve_running-Bears :
    (k : Buckets) (x : Surroundings) (o : Outside) {logs : List LogRecord} {s : Running k}
    → start k x false ≡ runs logs s
    → Redirects o.moved
    → (e : Turn) (fates : ℕ → Fate) (l : Limiters k) (r : Request) (w : World) (t : Target)
      (token : Bytes)
    → w.out.sent ≡ none
    → route_of (deps_of k o s) r ≡ some (t, token)
    → is_admin t ≡ true
    → status (serve_running k o s e fates l r w).1.0 ≡ 200
    → Bears o.sha
        (x.env (codes "ADMIN_USER"))
        (x.env (codes "ADMIN_PASSWORD"))
        (o.credentials (record r { token = token }))
unfolding serve_running deps_of
serve_running-Bears k x o {logs} {s} h moved e fates l r w t token fresh found admin good =
    let c = start-IsConfigured k x false h in
    subst
      (λ q.
        Bears o.sha q (x.env (codes "ADMIN_PASSWORD")) (o.credentials (record r { token = token })))
      c.admin_user
      (subst (λ q. Bears o.sha s.admin.admin_user q (o.credentials (record r { token = token })))
        c.admin_password
        (serve-Credited k (deps_of k o s) e l t token r (record w { logs = [] }) fresh moved found
          admin good))
