-- ===== src/Handler/Admin.antt =====
-- `BasicAuth`, `sameOrigin` and the texts of windows and of the uptime of internal/handler/admin.go.
-- SHA-256, `Request.BasicAuth` and `url.Parse` with `Hostname` are arguments.
pub mod Guards
pub mod LogTable
pub mod Views
pub mod Stats
pub mod Health
pub mod Clear
mod Tests
use disapyr_link.Common.{
  ℕ, ◌+◌, ◌/◌, ◌%◌, pos, Bool, true, false, not, ◌&&◌, ◌||◌, [], ◌++◌, Bytes, same, if◌then◌else◌,
  ltb, codes, Option, none, some,
}
use disapyr_link.Encoding.Decimal.{itoa}
use disapyr_link.Strings.{Unicode, equal_fold}
use disapyr_link.Http.{
  Request, World, Handler, returned, get_header, set_header, write, write_header, http_error,
  respond,
}

abbrev pub disabled_text : Bytes
disabled_text =
    codes
      "Admin interface is disabled.\nSet ADMIN_USER and ADMIN_PASSWORD environment variables to enable it."

abbrev pub forbid : World → World
forbid = respond (λ out. write disabled_text (
    write_header 403 (record out {
      headers = set_header (codes "Content-Type") (codes "text/plain; charset=utf-8") out.headers;
    })))

abbrev pub challenge : World → World
challenge = respond (λ out. http_error (codes "Unauthorized") 401 (record out {
  headers =
      set_header (codes "WWW-Authenticate") (codes "Basic realm=\"disapyr-admin\"") out.headers;
}))

-- What is compared: the hashes, of empty texts if the request has no credentials.
abbrev pub admitted : (Bytes → Bytes) → Bytes → Bytes → Option (Bytes × Bytes) → Bool
admitted sha user pass none = false
admitted sha user pass (some (u, p)) = same (sha u) (sha user) && same (sha p) (sha pass)

-- BasicAuth
unfoldable pub basic_auth :
    (Bytes → Bytes) → (Request → Option (Bytes × Bytes)) → Bytes → Bytes → Handler → Handler
unfolding write write_header http_error set_header
basic_auth sha parse user pass next r w =
    if same user [] || same pass []
    then (forbid w, returned)
    else if not (admitted sha user pass (parse r))
    then (challenge w, returned)
    else next r w

-- The host of a URL, with its port and without.
pub record UrlHost : Type 0 where
  pub host : Bytes
  pub hostname : Bytes

abbrev pub check : Unicode → Bytes → Option UrlHost → Bool
check u host none = false
check u host (some url) = equal_fold u url.host host || equal_fold u url.hostname host

-- sameOrigin
unfoldable pub same_origin : Unicode → (Bytes → Option UrlHost) → Request → Bool
unfolding equal_fold get_header
same_origin u parse r =
    let origin = get_header (codes "Origin") r.headers in
    let ref = get_header (codes "Referer") r.headers in
    if not (same origin [])
    then check u r.host (parse origin)
    else if not (same ref [])
    then check u r.host (parse ref)
    else true

-- windowToInterval
unfoldable pub window_to_interval : Bytes → Bytes
window_to_interval window =
    if same window (codes "1h")
    then codes "1 hour"
    else if same window (codes "6h")
    then codes "6 hours"
    else if same window (codes "7d")
    then codes "7 days"
    else codes "24 hours"

-- humanWindow
unfoldable pub human_window : Bytes → Bytes
human_window window =
    if same window (codes "1h")
    then codes "1 hour"
    else if same window (codes "6h")
    then codes "6 hours"
    else if same window (codes "7d")
    then codes "7 days"
    else codes "24 hours"

-- Whole seconds as days, hours, minutes and seconds.
pub record Uptime : Type 0 where
  pub days : ℕ
  pub hours : ℕ
  pub minutes : ℕ
  pub seconds : ℕ

unfoldable pub uptime_of : ℕ → Uptime
uptime_of s = record {
  days = s / 3600 / 24;
  hours = s / 3600 % 24;
  minutes = s / 60 % 60;
  seconds = s % 60;
}

-- `d.Round(time.Second)`, for a duration that is not negative, in seconds.
abbrev pub rounded_seconds : ℕ → ℕ
rounded_seconds d = (d + 500000000) / 1000000000

abbrev number : ℕ → Bytes → Bytes
number n unit = itoa (pos n) ++ unit

-- formatUptime
unfoldable pub format_uptime : ℕ → Bytes
unfolding uptime_of itoa
format_uptime d =
    let t = uptime_of (rounded_seconds d) in
    if ltb 0 t.days
    then number t.days (codes "d ") ++ (number t.hours (codes "h ") ++ number t.minutes (codes "m"))
    else if ltb 0 t.hours
    then number t.hours (codes "h ") ++ number t.minutes (codes "m")
    else number t.minutes (codes "m ") ++ number t.seconds (codes "s")
