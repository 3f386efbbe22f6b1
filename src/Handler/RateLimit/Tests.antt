-- ===== src/Handler/RateLimit/Tests.antt =====
-- A rate limiter with a counting bucket, for the theorems about internal/handler/ratelimit.go.
use disapyr_link.Common.{
  ℕ, ◌-◌, ℤ, pos, pos_part, ◌≡◌, refl, ◌≢◌, ◌⊎◌, true, false, [], ◌∷◌, ◌++◌, arith, Bytes, same,
  ltb, codes, some,
}
use disapyr_link.Strings.{Unicode, split}
use disapyr_link.Http.{Request, World, fresh_writer, returned, Handler}
use disapyr_link.Handler.RateLimit.{
  Net, Buckets, RateLimiter, client_ip, get_limiter, limit, xff_key,
}
use disapyr_link.Handler.RateLimit.ClientIp.{client_ip-spoofed}
use disapyr_link.Handler.RateLimit.Limit.{IsRefused, limit-cases}

-- A bucket that is never refilled.
abbrev counting : Buckets
counting = record {
  Bucket = ℕ;
  fresh = λ rate burst. pos_part burst;
  allow = λ now n. (n - 1, ltb 0 n);
}

abbrev tables : Unicode
tables = record { lower = λ s. s; fold = λ s t. same s t; trim = λ s. s }

abbrev net : Net
net = record { parse_ip = λ s. some s; split_host_port = λ s. some s }

abbrev limiter_with : ℤ → RateLimiter counting
limiter_with burst = record {
  limiters = [];
  burst = burst;
  per_minute = pos 10;
  trust_proxy = true;
  trusted_proxies_count = pos 1;
}

abbrev exhausted : RateLimiter counting
exhausted = limiter_with (pos 0)

abbrev untrusting : RateLimiter counting
untrusting = record exhausted { trust_proxy = false }

abbrev request : Bytes → Request
request path = record {
  method = codes "GET";
  path = path;
  host = codes "localhost";
  remote_addr = codes "10.0.0.1";
  headers = [];
  body = [];
  token = [];
}

abbrev world : World
world = record {
  db = record { secrets = []; events = []; app_logs = [] };
  logs = [];
  out = fresh_writer;
}

abbrev quiet : Handler
quiet r w = (w, returned)

client_ip-spoofed_example :
    client_ip counting tables net exhausted
      (record (request []) { headers = (xff_key, codes "6.6.6.6" ++ b',' ∷ codes "1.2.3.4") ∷ [] })
    ≡ client_ip counting tables net exhausted
        (record (request []) { headers = (xff_key, codes "1.2.3.4") ∷ [] })
unfolding split
client_ip-spoofed_example =
    client_ip-spoofed counting tables net exhausted (request []) [] (codes "6.6.6.6")
      (codes "1.2.3.4") (λ h. cc) (omega arith)

limit-cases_example :
    (((limit counting tables net (pos 5) exhausted quiet (request []) world).1
        ≡ quiet (request []) world)
      × ((exhausted.per_minute ≡ pos 0)
          ⊎ ((counting.allow
                (pos 5)
                (get_limiter counting
                  (pos 5)
                  (client_ip counting tables net exhausted (request []))
                  exhausted).0).1
              ≡ true)))
    ⊎ (IsRefused counting tables net exhausted
          (request [])
          world
          (limit counting tables net (pos 5) exhausted quiet (request []) world).1.0
        × (exhausted.per_minute ≢ pos 0)
        × ((counting.allow
              (pos 5)
              (get_limiter counting
                (pos 5)
                (client_ip counting tables net exhausted (request []))
                exhausted).0).1
            ≡ false))
limit-cases_example =
    limit-cases counting tables net (pos 5) exhausted quiet (request []) world refl
