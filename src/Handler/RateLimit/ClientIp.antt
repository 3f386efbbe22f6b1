-- ===== src/Handler/RateLimit/ClientIp.antt =====
-- `clientIP` of internal/handler/ratelimit.go: what a client can do about its address.
use disapyr_link.Common.{
  get_elem?-append, ℕ, ◌+◌, ◌-◌, ◌≤◌, ℤ, ◌≡◌, refl, ◌≢◌, inl, inr, true, false, List, [], ◌∷◌, ◌++◌,
  arith, Bytes, same, same_refl, length, Bool-cases, leb, length-append,
}
use disapyr_link.Strings.{Unicode, split}
use disapyr_link.Strings.Splitting.{split-append}
use disapyr_link.Http.{Request, Headers, get_header}
use disapyr_link.Handler.RateLimit.{
  Net, Buckets, RateLimiter, hops_of, part_from_right, forwarded_ip, client_ip, xff_key,
}

-- Without a trusted proxy the address does not depend on the headers.
pub client_ip-untrusted :
    (k : Buckets) (u : Unicode) (net : Net) (rl : RateLimiter k) (r : Request) (hs : Headers)
    → rl.trust_proxy ≡ false
    → client_ip k u net rl (record r { headers = hs }) ≡ client_ip k u net rl r
unfolding client_ip
client_ip-untrusted k u net rl r hs h = rw h

part_from_right-append :
    (hops : ℕ) (ps qs : List Bytes)
    → hops ≤ length qs
    → part_from_right hops (ps ++ qs) ≡ part_from_right hops qs
part_from_right-append hops ps qs h =
    let index : length (ps ++ qs) - hops ≡ length ps + (length qs - hops) =
      omega (arith, length-append ps qs) in
    let far : leb hops (length (ps ++ qs)) ≡ true = ground (arith, length-append ps qs) in
    let near : leb hops (length qs) ≡ true = ground arith in
    rw (far, near, index) (get_elem?-append ps qs (length qs - hops))

forwarded_ip-append :
    (u : Unicode) (net : Net) (count : ℤ) (p q : Bytes)
    → q ≢ []
    → hops_of count ≤ length (split b',' q)
    → forwarded_ip u net count (p ++ b',' ∷ q) ≡ forwarded_ip u net count q
unfolding forwarded_ip
forwarded_ip-append u net count p q h enough = rw (
  same-append p q,
  same-nil q h,
  split-append b',' p q,
  part_from_right-append (hops_of count) (split b',' p) (split b',' q) enough,
)
  where
    same-nil : (t : Bytes) → t ≢ [] → same t [] ≡ false
    same-nil [] h = absurd (h refl)
    same-nil (c ∷ t) h = unfold same in refl

    same-append : (p q : Bytes) → same (p ++ b',' ∷ q) [] ≡ false
    same-append [] q = unfold same in refl
    same-append (c ∷ p) q = unfold same in refl

-- Behind trusted proxies a client cannot choose its address: if the last `trusted_proxies_count`
-- elements of X-Forwarded-For are the proxies' own, the address is the same whatever stands before
-- them in the header.
pub client_ip-spoofed :
    (k : Buckets) (u : Unicode) (net : Net) (rl : RateLimiter k) (r : Request) (hs : Headers)
    (p q : Bytes)
    → q ≢ []
    → hops_of rl.trusted_proxies_count ≤ length (split b',' q)
    → client_ip k u net rl (record r { headers = (xff_key, p ++ b',' ∷ q) ∷ hs })
      ≡ client_ip k u net rl (record r { headers = (xff_key, q) ∷ hs })
unfolding client_ip get_header
client_ip-spoofed k u net rl r hs p q h enough = elim (Bool-cases rl.trust_proxy) [
  | inl e ↦
      rw (e, same_refl xff_key, forwarded_ip-append u net rl.trusted_proxies_count p q h enough)
  | inr e ↦ rw e
]
