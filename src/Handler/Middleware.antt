-- ===== src/Handler/Middleware.antt =====
-- `Middleware` of internal/handler/handler.go.
pub mod Laws
mod Tests
use disapyr_link.Common.{List, [], ◌∷◌, Bytes, if◌then◌else◌, codes}
use disapyr_link.Strings.{Unicode}
use disapyr_link.Http.{
  Request, Headers, set_header, write_header, http_error, World, warn, info, error, log, respond,
  Handler, Exit, returned, panicked,
}
use disapyr_link.Handler.Probe.{is_probe_request}
use disapyr_link.Handler.Mask.{mask_token_in_path}

abbrev pub csp : Bytes
csp =
    codes
      "default-src 'self'; script-src 'self'; style-src 'self'; font-src 'self'; img-src 'self' data:; connect-src 'self'; frame-ancestors 'none';"

-- The headers that are set before anything else.
unfoldable pub security_headers : Headers → Headers
unfolding set_header
security_headers hs = set_header (codes "Content-Security-Policy") csp (
    set_header (codes "Strict-Transport-Security")
      (codes "max-age=63072000; includeSubDomains; preload")
      (set_header (codes "Permissions-Policy") (codes "interest-cohort=()") (
        set_header (codes "Referrer-Policy") (codes "no-referrer") (
          set_header (codes "X-Frame-Options") (codes "DENY")
            (set_header (codes "X-Content-Type-Options") (codes "nosniff") hs)))))

abbrev pub request_attrs : Bytes → Request → List (Bytes × Bytes)
request_attrs path r =
    (codes "method", r.method) ∷ (codes "path", path) ∷ (codes "remote", r.remote_addr) ∷ []

-- The deferred function.
abbrev pub recovered : Bytes → World × Exit → World × Exit
recovered masked (w, returned) = (w, returned)
recovered masked (w, panicked value) = (
  respond (http_error (codes "internal server error") 500) (
      log error (codes "panic recovered") ((codes "panic", value) ∷ (codes "path", masked) ∷ []) w),
  returned,
)

abbrev pub with_security_headers : World → World
with_security_headers = respond (λ out. record out { headers = security_headers out.headers })

-- The world in which the next handler runs. The record of the request is collected in the world; whether it
-- comes to app_logs depends on the level of the log handler, and is in Server/Serving.
abbrev pub before_next : Bytes → Request → World → World
before_next masked r w =
    log info (codes "request") (request_attrs masked r) (with_security_headers w)

unfoldable pub middleware : Unicode → Handler → Handler
unfolding is_probe_request mask_token_in_path security_headers http_error write_header
middleware u next r w =
    if is_probe_request u r.path
    then (
      respond (write_header 418) (
          log warn (codes "probe request blocked") (request_attrs r.path r)
            (with_security_headers w)),
      returned,
    )
    else (let masked = mask_token_in_path r.path in
        recovered masked (next r (before_next masked r w)))
