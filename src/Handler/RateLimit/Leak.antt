-- ===== src/Handler/RateLimit/Leak.antt =====
-- What the log record of `Limit` of internal/handler/ratelimit.go says of a path.
use disapyr_link.Common.{
  ℤ, pos, ◌≡◌, ap, ◌∙◌, ◌≢◌, false, List, [], ◌∷◌, ◌++◌, arith, Bytes, sym, eqb_ℤ,
}
use disapyr_link.Strings.{Unicode}
use disapyr_link.Http.{Request, World, LogRecord, Handler}
use disapyr_link.Handler.RateLimit.{
  Net, Buckets, RateLimiter, client_ip, get_limiter, too_many, limit,
}

snoc-injective : (xs : List LogRecord) {a b : LogRecord} → xs ++ a ∷ [] ≡ xs ++ b ∷ [] → a ≡ b
snoc-injective [] h = cc
snoc-injective (x ∷ xs) h = snoc-injective xs (cc)

abbrev second_value : List (Bytes × Bytes) → Bytes
second_value (_ ∷ (_, v) ∷ _) = v
second_value _ = []

too_many-logs :
    (ip : Bytes) (n : ℤ) (r r' : Request) (w : World) (ip' : Bytes)
    → (too_many ip n r w).logs ≡ (too_many ip' n r' w).logs
    → r.path ≡ r'.path
too_many-logs ip n r r' w ip' h = ap (λ l. second_value l.attrs) (snoc-injective w.logs h)

module _ (k : Buckets) (u : Unicode) (net : Net) where
  abbrev pub GivesNone : ℤ → RateLimiter k → Request → Type 0
  GivesNone now rl r = (k.allow now (get_limiter k now (client_ip k u net rl r) rl).0).1 ≡ false

  limit-refused :
      (now : ℤ) (rl : RateLimiter k) (next : Handler) (r : Request) (w : World)
      → rl.per_minute ≢ pos 0
      → GivesNone now rl r
      → (limit k u net now rl next r w).1.0 ≡ too_many (client_ip k u net rl r) rl.per_minute r w
  unfolding limit
  limit-refused now rl next r w enabled h =
      let on : eqb_ℤ rl.per_minute (pos 0) ≡ false = ground arith in rw (on, h)

  -- The record of a refused request holds its path as it is, a token in it included: two refused
  -- requests leave equal logs only if their paths are equal.
  pub limit-logs_path :
      (now : ℤ) (rl : RateLimiter k) (next : Handler) (r r' : Request) (w : World)
      → rl.per_minute ≢ pos 0
      → GivesNone now rl r
      → GivesNone now rl r'
      → (limit k u net now rl next r w).1.0.logs ≡ (limit k u net now rl next r' w).1.0.logs
      → r.path ≡ r'.path
  limit-logs_path now rl next r r' w enabled h h' same_logs =
      too_many-logs (client_ip k u net rl r) rl.per_minute r r' w (client_ip k u net rl r') (
        ap (λ v. v.logs) (sym (limit-refused now rl next r w enabled h))
        ∙ same_logs
        ∙ ap (λ v. v.logs) (limit-refused now rl next r' w enabled h'))
