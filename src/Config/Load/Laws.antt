-- ===== src/Config/Load/Laws.antt =====
-- `Load` and `Print` of internal/config/config.go.
use disapyr_link.Common.{
  ℕ, ◌*◌, ℤ, pos, ◌≤ℤ◌, ◌≡◌, refl, ap, ◌∙◌, inl, inr, false, [], ◌∷◌, arith, Bytes, same, same_iff,
  Bool-cases, sym, codes, Option,
}
use disapyr_link.Encoding.Decimal.{itoa, atoi, atoi-itoa, atoi-nil, IsInt64, parsed}
use disapyr_link.Config.Load.{
  Config, Env, get_env_int, get_env_int64, not_negative, load, Url, print,
}

not_negative-le : (z : ℤ) → pos 0 ≤ℤ not_negative z
not_negative-le z = ground arith

-- Whatever the environment, no rate limit is negative.
pub load-rates :
    (env : Env)
    → (pos 0 ≤ℤ (load env).rate_limit_create_per_min)
      × (pos 0 ≤ℤ (load env).rate_limit_reveal_per_min)
      × (pos 0 ≤ℤ (load env).rate_limit_health_per_min)
unfolding load
load-rates env = (
  not_negative-le (get_env_int env (codes "RATE_LIMIT_CREATE_PER_MIN") (pos 10)),
  not_negative-le (get_env_int env (codes "RATE_LIMIT_REVEAL_PER_MIN") (pos 20)),
  not_negative-le (get_env_int env (codes "RATE_LIMIT_HEALTH_PER_MIN") (pos 5)),
)

itoa-not_empty : (z : ℤ) → IsInt64 z → same (itoa z) [] ≡ false
itoa-not_empty z h = elim (Bool-cases (same (itoa z) [])) [
  | inl e ↦
      let empty : itoa z ≡ [] = (same_iff (itoa z) []).0 e in
      let bad : atoi [] ≡ parsed z = ap atoi (sym empty) ∙ atoi-itoa z h in cc (atoi-nil)
  | inr e ↦ e
]

get_env_int-itoa :
    (env : Env) (key : Bytes) (fallback z : ℤ)
    → IsInt64 z
    → env key ≡ itoa z
    → (get_env_int env key fallback ≡ z) × (get_env_int64 env key fallback ≡ z)
unfolding get_env_int get_env_int64
get_env_int-itoa env key fallback z h e = rw (e, itoa-not_empty z h, atoi-itoa z h) (refl, refl)

-- Numbers that are written to the environment in decimal are read back: the limit on secrets and the
-- count of proxies as they are, the rates of creation and of revealing with 0 for a negative one.
pub load-numbers :
    (env : Env) (m t c r : ℤ)
    → IsInt64 m
    → IsInt64 t
    → IsInt64 c
    → IsInt64 r
    → env (codes "MAX_SECRET_BYTES") ≡ itoa m
    → env (codes "TRUSTED_PROXIES_COUNT") ≡ itoa t
    → env (codes "RATE_LIMIT_CREATE_PER_MIN") ≡ itoa c
    → env (codes "RATE_LIMIT_REVEAL_PER_MIN") ≡ itoa r
    → ((load env).max_secret_bytes ≡ m)
      × ((load env).trusted_proxies_count ≡ t)
      × ((load env).rate_limit_create_per_min ≡ not_negative c)
      × ((load env).rate_limit_reveal_per_min ≡ not_negative r)
unfolding load
load-numbers env m t c r hm ht hc hr em et ec er = (
  (get_env_int-itoa env (codes "MAX_SECRET_BYTES") (pos (10 * 1024 * 1024)) m hm em).1,
  (get_env_int-itoa env (codes "TRUSTED_PROXIES_COUNT") (pos 1) t ht et).0,
  ap not_negative (get_env_int-itoa env (codes "RATE_LIMIT_CREATE_PER_MIN") (pos 10) c hc ec).0,
  ap not_negative (get_env_int-itoa env (codes "RATE_LIMIT_REVEAL_PER_MIN") (pos 20) r hr er).0,
)

-- What is printed says of the administrator's password only whether it is set.
pub print-admin_password :
    (parse : Bytes → Option Url) (c : Config) (a b : ℕ) (p q : Bytes)
    → print parse (record c { admin_password = a ∷ p })
      ≡ print parse (record c { admin_password = b ∷ q })
unfolding print
print-admin_password parse c a b p q = refl
