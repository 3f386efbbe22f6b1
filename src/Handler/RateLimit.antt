-- ===== src/Handler/RateLimit.antt =====
-- internal/handler/ratelimit.go. The token bucket of golang.org/x/time/rate is an argument, a
-- `Buckets`; so are `net.ParseIP` with the print of an address and `net.SplitHostPort`, a `Net`. The
-- rate `float64(perMinute) / 60` is zero exactly when perMinute is, and is written as perMinute.
-- `getLimiter` and the `Allow` behind it are one step.
pub mod ClientIp
pub mod Table
pub mod Limit
pub mod Leak
mod Tests
use disapyr_link.Common.{
  ℕ, zero, suc, ◌-◌, ◌/◌, ℤ, pos, negsuc, pos_part, ltb_ℤ, Bool, not, List, [], ◌∷◌, Bytes, same,
  keep, length, if◌then◌else◌, leb, codes, Option, none, some, get_elem?, ◌-ℤ◌, eqb_ℤ,
}
use disapyr_link.Strings.{Unicode, split, trim_space}
use disapyr_link.Encoding.Decimal.{itoa}
use disapyr_link.Http.{
  Request, get_header, set_header, http_error, World, warn, log, respond, Handler, Exit, returned,
}

pub record Net : Type 0 where
  pub parse_ip : Bytes → Option Bytes
  pub split_host_port : Bytes → Option Bytes

-- `rate.NewLimiter`, for a rate in requests per minute and a burst, and `Allow` at a time.
pub record Buckets : Type 1 where
  pub Bucket : Type 0
  pub fresh : ℤ → ℤ → Bucket
  pub allow : ℤ → Bucket → Bucket × Bool

-- RetryAfterSeconds
unfoldable pub retry_after_seconds : ℤ → Bytes
unfolding itoa
retry_after_seconds per_minute =
    itoa (pos (60 / (if ltb_ℤ (pos 1) per_minute then pos_part per_minute else 1)))

-- The hops to go back from the right, at least one.
abbrev pub hops_of : ℤ → ℕ
hops_of (pos zero) = 1
hops_of (pos (suc n)) = suc n
hops_of (negsuc _) = 1

-- `parts[len(parts)-hops]`, if that index is not negative.
abbrev pub part_from_right : ℕ → List Bytes → Option Bytes
part_from_right hops parts =
    if leb hops (length parts) then get_elem? parts (length parts - hops) else none

abbrev parse_part : Unicode → Net → Option Bytes → Option Bytes
parse_part u net none = none
parse_part u net (some part) = net.parse_ip (trim_space u part)

-- The address that the header X-Forwarded-For names.
unfoldable pub forwarded_ip : Unicode → Net → ℤ → Bytes → Option Bytes
unfolding split trim_space
forwarded_ip u net count xff =
    if same xff []
    then none
    else parse_part u net (part_from_right (hops_of count) (split b',' xff))

abbrev or_else : Option Bytes → Bytes → Bytes
or_else none d = d
or_else (some a) d = a

abbrev pub xff_key : Bytes
xff_key = codes "X-Forwarded-For"

-- The refusal of a request: a log record and the response.
abbrev pub too_many : Bytes → ℤ → Request → World → World
too_many ip per_minute r w =
    respond
      (λ out. http_error (codes "too many requests") 429 (record out {
        headers = set_header (codes "Retry-After") (retry_after_seconds per_minute) out.headers;
      }))
      (log warn (codes "rate limit exceeded")
        ((codes "ip", ip) ∷ (codes "path", r.path) ∷ (codes "method", r.method) ∷ []) w)

abbrev pub ten_minutes : ℤ
ten_minutes = pos 600000000000

module _ (k : Buckets) where
  -- ipLimiter
  pub record IpLimiter : Type 0 where
    pub limiter : k.Bucket
    pub last_seen : ℤ

  -- The configuration and the table of a RateLimiter.
  pub record RateLimiter : Type 0 where
    pub limiters : List (Bytes × IpLimiter)
    pub burst : ℤ
    pub per_minute : ℤ
    pub trust_proxy : Bool
    pub trusted_proxies_count : ℤ

  -- NewRateLimiter
  unfoldable pub new_rate_limiter : ℤ → ℤ → Bool → ℤ → RateLimiter
  new_rate_limiter per_minute burst trust_proxy count = record {
    limiters = [];
    burst = burst;
    per_minute = per_minute;
    trust_proxy = trust_proxy;
    trusted_proxies_count = count;
  }

  -- clientIP
  unfoldable pub client_ip : Unicode → Net → RateLimiter → Request → Bytes
  unfolding forwarded_ip
  client_ip u net rl r =
      let direct = or_else (net.split_host_port r.remote_addr) r.remote_addr in
      if rl.trust_proxy
      then or_else (forwarded_ip u net rl.trusted_proxies_count (get_header xff_key r.headers))
          direct
      else direct

  unfoldable pub find : Bytes → List (Bytes × IpLimiter) → Option IpLimiter
  find ip [] = none
  find ip ((i, e) ∷ m) = if same i ip then some e else find ip m

  unfoldable pub insert : Bytes → IpLimiter → List (Bytes × IpLimiter) → List (Bytes × IpLimiter)
  insert ip e [] = (ip, e) ∷ []
  insert ip e ((i, f) ∷ m) = if same i ip then (ip, e) ∷ m else (i, f) ∷ insert ip e m

  abbrev limiter_or : Option IpLimiter → k.Bucket → k.Bucket
  limiter_or none b = b
  limiter_or (some e) b = e.limiter

  -- getLimiter, at a time: the limiter of the address, and the table with its entry.
  unfoldable pub get_limiter : ℤ → Bytes → RateLimiter → k.Bucket × RateLimiter
  unfolding find insert
  get_limiter now ip rl =
      let b = limiter_or (find ip rl.limiters) (k.fresh rl.per_minute rl.burst) in
      (b, record rl { limiters = insert ip (record { limiter = b; last_seen = now }) rl.limiters })

  -- The entry of the address after `Allow`, whose limiter is shared with the table.
  abbrev after_allow : ℤ → Bytes → k.Bucket → RateLimiter → RateLimiter
  after_allow now ip b rl = record rl {
    limiters = insert ip (record { limiter = b; last_seen = now }) rl.limiters;
  }

  -- The handler that Limit returns, at a time.
  unfoldable pub limit :
      Unicode → Net → ℤ → RateLimiter → Handler → Request → World → RateLimiter × (World × Exit)
  unfolding client_ip get_limiter
  limit u net now rl next r w =
      if eqb_ℤ rl.per_minute (pos 0)
      then (rl, next r w)
      else (let ip = client_ip u net rl r in
          let (b, rl') = get_limiter now ip rl in
          let (b', allowed) = k.allow now b in
          (
            after_allow now ip b' rl',
            (if allowed then next r w else (too_many ip rl.per_minute r w, returned)),
          ))

  -- One round of cleanup, at a time.
  unfoldable pub cleanup : ℤ → RateLimiter → RateLimiter
  cleanup now rl =
      let cutoff = now -ℤ ten_minutes in
      record rl { limiters = keep (λ m. not (ltb_ℤ m.1.last_seen cutoff)) rl.limiters }
