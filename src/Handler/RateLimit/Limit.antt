-- ===== src/Handler/RateLimit/Limit.antt =====
-- `Limit` of internal/handler/ratelimit.go.
use disapyr_link.Common.{
  ℤ, pos, ◌≡◌, refl, ◌≢◌, ◌⊎◌, inl, inr, true, false, [], ◌∷◌, ◌++◌, arith, Bytes, same, Bool-cases,
  codes, none, some, eqb_ℤ,
}
use disapyr_link.Strings.{Unicode}
use disapyr_link.Http.{
  Request, get_header, set_header, del_header, http_error, write, write_header, World, warn,
  Handler,
}
use disapyr_link.Handler.RateLimit.{
  Net, Buckets, RateLimiter, client_ip, find, get_limiter, too_many, limit, retry_after_seconds,
}
use disapyr_link.Handler.RateLimit.Table.{find-insert}

module _ (k : Buckets) (u : Unicode) (net : Net) where
  -- A request changes the limiter of no address but its own.
  pub limit-others :
      (now : ℤ) (rl : RateLimiter k) (next : Handler) (r : Request) (w : World) (j : Bytes)
      → same (client_ip k u net rl r) j ≡ false
      → find k j (limit k u net now rl next r w).0.limiters ≡ find k j rl.limiters
  unfolding limit get_limiter
  limit-others now rl next r w j other = elim (Bool-cases (eqb_ℤ rl.per_minute (pos 0))) [
    | inl e ↦ rw e
    | inr e ↦ rw (e, find-insert, other, find-insert, other)
  ]

  -- What a refused request leaves: the tables as they were, the status 429 and when to try again.
  pub record IsRefused (rl : RateLimiter k) (r : Request) (w w' : World) : Type 0 where
    pub kept : w'.db ≡ w.db
    pub refused : w'.out.sent ≡ some (429, w'.out.headers)
    pub retry : get_header (codes "Retry-After") w'.out.headers ≡ retry_after_seconds rl.per_minute
    pub logged :
        w'.logs
        ≡ w.logs
          ++ record {
            level = warn;
            msg = codes "rate limit exceeded";
            attrs =
                (codes "ip", client_ip k u net rl r)
                ∷ (codes "path", r.path)
                ∷ (codes "method", r.method)
                ∷ [];
          }
            ∷ []

  too_many-IsRefused :
      (rl : RateLimiter k) (r : Request) (w : World)
      → w.out.sent ≡ none
      → IsRefused rl r w (too_many (client_ip k u net rl r) rl.per_minute r w)
  unfolding http_error write write_header set_header get_header same del_header
  too_many-IsRefused rl r w h = record { kept = refl; refused = rw h; retry = refl; logged = refl }

  -- A request that is limited is handed on, or refused; and it is refused exactly when limiting is
  -- enabled and the bucket of its address gives no token.
  pub limit-cases :
      (now : ℤ) (rl : RateLimiter k) (next : Handler) (r : Request) (w : World)
      → w.out.sent ≡ none
      → (((limit k u net now rl next r w).1 ≡ next r w)
          × ((rl.per_minute ≡ pos 0)
              ⊎ ((k.allow now (get_limiter k now (client_ip k u net rl r) rl).0).1 ≡ true)))
        ⊎ (IsRefused rl r w (limit k u net now rl next r w).1.0
            × (rl.per_minute ≢ pos 0)
            × ((k.allow now (get_limiter k now (client_ip k u net rl r) rl).0).1 ≡ false))
  unfolding limit
  limit-cases now rl next r w h = elim (Bool-cases (eqb_ℤ rl.per_minute (pos 0))) [
    | inl e ↦ inl (rw e, inl (ground arith))
    | inr e ↦ elim (Bool-cases (k.allow now (get_limiter k now (client_ip k u net rl r) rl).0).1) [
      | inl a ↦ inl (rw (e, a), inr a)
      | inr a ↦ inr (rw (e, a) (too_many-IsRefused rl r w h), (λ q. ground arith), a)
    ]
  ]
