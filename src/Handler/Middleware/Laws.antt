-- ===== src/Handler/Middleware/Laws.antt =====
-- `Middleware` of internal/handler/handler.go around any handler.
use disapyr_link.Common.{
  ◌≡◌, refl, ap, ◌≢◌, ◌⊎◌, inl, inr, true, false, [], ◌++◌, Bytes, same, Bool-cases, codes, none,
  Lacks,
}
use disapyr_link.Strings.{Unicode}
use disapyr_link.Http.{
  Request, Headers, get_header, set_header, del_header, write_header, World, Handler, Exit,
  returned, panicked, status,
}
use disapyr_link.Handler.Probe.{is_probe_request}
use disapyr_link.Handler.Mask.{slash, mask_token_in_path}
use disapyr_link.Handler.Mask.Laws.{IsTail, mask_token_in_path-hides}
use disapyr_link.Handler.Middleware.{csp, security_headers, recovered, before_next, middleware}

recovered-returned : (masked : Bytes) (x : World × Exit) → (recovered masked x).1 ≡ returned
recovered-returned masked (w, returned) = refl
recovered-returned masked (w, panicked value) = refl

-- No panic of a handler leaves the middleware.
pub middleware-returned :
    (u : Unicode) (next : Handler) (r : Request) (w : World) → (middleware u next r w).1 ≡ returned
unfolding middleware
middleware-returned u next r w = elim (Bool-cases (is_probe_request u r.path)) [
  | inl e ↦ rw e
  | inr e ↦ rw e (
      recovered-returned (mask_token_in_path r.path)
        (next r (before_next (mask_token_in_path r.path) r w)))
]

-- The handler behind the middleware has the status 200, and did not end before it had sent one.
abbrev pub HasSucceeded : World × Exit → Type 0
HasSucceeded x = (status x.0 ≡ 200) × ((x.1 ≡ returned) ⊎ (x.0.out.sent ≢ none))

-- A probe is answered with the status 418 and an empty body, without the next handler: the answer is
-- the same whatever that handler is, and the tables are not touched.
pub middleware-probe :
    (u : Unicode) (next other : Handler) (r : Request) (w : World)
    → is_probe_request u r.path ≡ true
    → w.out.sent ≡ none
    → (middleware u next r w ≡ middleware u other r w)
      × (status (middleware u next r w).0 ≡ 418)
      × ((middleware u next r w).0.out.body ≡ w.out.body)
      × ((middleware u next r w).0.db ≡ w.db)
unfolding middleware write_header
middleware-probe u next other r w probe fresh = rw (probe, fresh) (refl, refl, refl, refl)

-- Two requests that differ only in the token of their path are answered and logged alike, as far as
-- the middleware goes: if neither path is a probe and the next handler treats the requests alike, the
-- worlds they leave are equal.
pub middleware-hides :
    (u : Unicode) (next : Handler) (r : Request) (w : World) (t t' rest : Bytes)
    → t ≢ []
    → t' ≢ []
    → Lacks slash t
    → Lacks slash t'
    → IsTail rest
    → is_probe_request u (codes "/s/" ++ (t ++ rest)) ≡ false
    → is_probe_request u (codes "/s/" ++ (t' ++ rest)) ≡ false
    → ((v : World)
        → next (record r { path = codes "/s/" ++ (t ++ rest) }) v
          ≡ next (record r { path = codes "/s/" ++ (t' ++ rest) }) v)
    → middleware u next (record r { path = codes "/s/" ++ (t ++ rest) }) w
      ≡ middleware u next (record r { path = codes "/s/" ++ (t' ++ rest) }) w
unfolding middleware
middleware-hides u next r w t t' rest h h' k k' tail pass pass' alike =
    let masked = mask_token_in_path-hides t t' rest h h' k k' tail in
    rw (pass, pass', masked) (ap (recovered _) (alike _))

-- The security headers, as they stand in the response when the next handler runs.
pub security_headers-get :
    (hs : Headers)
    → (get_header (codes "Content-Security-Policy") (security_headers hs) ≡ csp)
      × (get_header (codes "X-Frame-Options") (security_headers hs) ≡ codes "DENY")
      × (get_header (codes "X-Content-Type-Options") (security_headers hs) ≡ codes "nosniff")
      × (get_header (codes "Referrer-Policy") (security_headers hs) ≡ codes "no-referrer")
unfolding security_headers get_header set_header del_header same
security_headers-get hs = (refl, refl, refl, refl)
