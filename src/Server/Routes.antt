-- ===== src/Server/Routes.antt =====
-- The routes of cmd/server/main.go, with their limiters and guards, behind the middleware. What
-- net/http and net/url do for a request is an argument: the escaped path, the decoding of a segment, the
-- file server and the redirect.
pub mod Spec
pub mod Reading
pub mod Keeps
pub mod Handled
pub mod Safe
pub mod Custody
pub mod Success
pub mod Link
pub mod Life
pub mod Reveals
use disapyr_link.Common.{
  ℤ, Bool, true, false, not, ◌&&◌, ◌||◌, List, [], ◌∷◌, ◌++◌, map, Bytes, same, if◌then◌else◌,
  codes, Option, none, some,
}
use disapyr_link.Repository.{Call}
use disapyr_link.Strings.{Unicode}
use disapyr_link.Http.{Request, World, Handler, Exit, returned, respond, set_header, http_error}
use disapyr_link.Handler.Probe.{is_probe_request}
use disapyr_link.Handler.Mask.{mask_token_in_path}
use disapyr_link.Handler.Middleware.{middleware, before_next}
use disapyr_link.Handler.Secrets.{Decoder, Answers, create_secret, reveal_secret}
use disapyr_link.Handler.Pages as Pages
use disapyr_link.Handler.Pages.{serve_index, serve_page}
use disapyr_link.Handler.RateLimit.{Buckets, Net, RateLimiter, limit}
use disapyr_link.Handler.Admin.{basic_auth, UrlHost}
use disapyr_link.Handler.Admin.Views as Views
use disapyr_link.Handler.Admin.Health.{Browser, Checkup, serve_health, serve_health_logs}
use disapyr_link.Handler.Admin.Clear.{clear_logs}
use disapyr_link.Server.Mux.{
  Segment, literal, wildcard, Pattern, choose, segments_of, is_clean, ends_in_slash, is_exact,
}

pub data Target : Type 0 where
  static_files index create page reveal health health_logs clear : Target

abbrev pub get : Bytes
get = codes "GET"

abbrev pub post : Bytes
post = codes "POST"

abbrev pattern_of : Bytes → List Segment → Bool → Target → Pattern Target
pattern_of m ss subtree t = record { method = m; segments = ss; subtree = subtree; target = t }

-- The patterns, in the order of the source.
abbrev pub routes : List (Pattern Target)
routes =
    pattern_of get (literal (codes "static") ∷ []) true static_files
    ∷ pattern_of get [] true index
    ∷ pattern_of post [] true create
    ∷ pattern_of get (literal (codes "s") ∷ wildcard ∷ []) false page
    ∷ pattern_of post (literal (codes "s") ∷ wildcard ∷ literal (codes "reveal") ∷ []) false reveal
    ∷ pattern_of get (literal (codes "health") ∷ []) false health
    ∷ pattern_of get (literal (codes "health") ∷ literal (codes "logs") ∷ []) false health_logs
    ∷ pattern_of post
        (literal (codes "health") ∷ literal (codes "logs") ∷ literal (codes "clear") ∷ []) false
        clear
    ∷ []

-- What the server is made of, and what it is given.
pub record Deps : Type 0 where
  pub unicode : Unicode
  pub net : Net
  pub escaped_path : Request → Bytes
  pub unescape : Bytes → Bytes
  pub files : Handler
  pub moved : Handler
  pub decode : Decoder
  pub max_bytes : ℤ
  pub pages : Pages.Templates
  pub admin_pages : Views.Templates
  pub browser : Browser
  pub sha : Bytes → Bytes
  pub credentials : Request → Option (Bytes × Bytes)
  pub admin_user : Bytes
  pub admin_password : Bytes
  pub query : Request → Bytes → Bytes
  pub form : Request → Bytes → Bytes
  pub url_host : Bytes → Option UrlHost

-- What the clock, the database and the rest of the environment answer while one request is served.
pub record Turn : Type 0 where
  pub clock : ℤ
  pub answers : Answers
  pub checkup : Checkup
  pub delete_call : Call
  pub count_call : Call
  pub rows_call : Call

module _ (k : Buckets) where
  -- The three rate limiters.
  pub record Limiters : Type 0 where
    pub for_create : RateLimiter k
    pub for_reveal : RateLimiter k
    pub for_health : RateLimiter k

  abbrev guarded : Deps → Handler → Handler
  guarded d next = basic_auth d.sha d.credentials d.admin_user d.admin_password next

  abbrev limited :
      Deps → Turn → RateLimiter k → Handler → Request → World → RateLimiter k × (World × Exit)
  limited d e rl next r w = limit k d.unicode d.net e.clock rl next r w

  abbrev in_health : Limiters → RateLimiter k × (World × Exit) → Limiters × (World × Exit)
  in_health s (rl, x) = (record s { for_health = rl }, x)

  abbrev in_create : Limiters → RateLimiter k × (World × Exit) → Limiters × (World × Exit)
  in_create s (rl, x) = (record s { for_create = rl }, x)

  abbrev in_reveal : Limiters → RateLimiter k × (World × Exit) → Limiters × (World × Exit)
  in_reveal s (rl, x) = (record s { for_reveal = rl }, x)

  -- The handler of a route.
  unfoldable pub handle :
      Deps → Turn → Limiters → Target → Request → World → Limiters × (World × Exit)
  handle d e s static_files r w = (s, d.files r w)
  handle d e s index r w = (s, serve_index d.pages d.max_bytes r w)
  handle d e s create r w =
      in_create s (limited d e s.for_create (create_secret d.decode d.max_bytes e.answers) r w)
  handle d e s page r w = (s, serve_page d.pages r w)
  handle d e s reveal r w = in_reveal s (limited d e s.for_reveal (reveal_secret e.answers) r w)
  handle d e s health r w =
      in_health s
        (limited d e s.for_health (guarded d (serve_health d.browser d.admin_pages e.checkup)) r w)
  handle d e s health_logs r w = in_health s (
      limited d e s.for_health
        (guarded d (serve_health_logs d.browser d.query d.admin_pages e.count_call e.rows_call)) r
        w)
  handle d e s clear r w = in_health s (
      limited d e s.for_health
        (guarded d (
          clear_logs d.browser d.url_host d.form d.admin_pages e.delete_call e.count_call
            e.rows_call))
        r w)

  -- The methods for which some pattern matches the path, sorted.
  abbrev pub has_match : Bytes → List Bytes → Bool
  has_match m ss = elim (choose routes m ss) [ none ↦ false | some _ ↦ true ]

  abbrev pub allowed_methods : List Bytes → Bytes
  allowed_methods ss =
      if has_match get ss
      then (if has_match post ss then codes "GET, HEAD, POST" else codes "GET, HEAD")
      else if has_match post ss
      then post
      else []

  abbrev pub not_allowed : List Bytes → World → World
  not_allowed ss =
      if same (allowed_methods ss) []
      then respond (http_error (codes "404 page not found") 404)
      else respond (λ out.
        http_error (codes "Method Not Allowed") 405
          (record out { headers = set_header (codes "Allow") (allowed_methods ss) out.headers }))

  abbrev pub chosen :
      Deps
      → Turn
      → Limiters
      → Request
      → List Bytes
      → Option (Pattern Target × Bytes)
      → World
      → Limiters × (World × Exit)
  chosen d e s r ss none w = (s, (not_allowed ss w, returned))
  chosen d e s r ss (some (p, token)) w = handle d e s p.target (record r { token = token }) w

  -- The path with a slash behind it is matched exactly, and the path is not.
  abbrev pub slash_missing : Bytes → List Bytes → Bool
  slash_missing m ss =
      (not (is_exact (choose routes m ss) ss) && not (ends_in_slash ss))
      && is_exact (choose routes m (ss ++ [] ∷ [])) (ss ++ [] ∷ [])

  -- The mux: a redirect to the clean path or to the path with a slash, or the handler of the route.
  unfoldable pub serve_mux : Deps → Turn → Limiters → Request → World → Limiters × (World × Exit)
  unfolding handle choose is_clean segments_of http_error set_header
  serve_mux d e s r w =
      let path = d.escaped_path r in
      let ss = map d.unescape (segments_of path) in
      if not (is_clean path) || slash_missing r.method ss
      then (s, d.moved r w)
      else chosen d e s r ss (choose routes r.method ss) w

  -- The server's handler: the middleware around the mux. A probe does not reach the limiters.
  unfoldable pub serve : Deps → Turn → Limiters → Request → World → Limiters × (World × Exit)
  unfolding middleware serve_mux
  serve d e s r w = (
    (if is_probe_request d.unicode r.path
        then s
        else (serve_mux d e s r (before_next (mask_token_in_path r.path) r w)).0),
    middleware d.unicode (λ r' w'. (serve_mux d e s r' w').1) r w,
  )
