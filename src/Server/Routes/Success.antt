-- ===== src/Server/Routes/Success.antt =====
-- What an answer with the status 200 says of the routes of cmd/server/main.go: if it says something of
-- the tables at the handler of the route, it says it behind the limiter, the mux and the middleware.
use disapyr_link.Common.{
  ℤ, pos, ◌≡◌, refl, ◌≢◌, inl, inr, true, false, not, ◌||◌, List, [], arith, map, Bytes, same,
  Bool-cases, Option-cases, Option, none, some, eqb_ℤ,
}
use disapyr_link.Repository.{Db}
use disapyr_link.Strings.{Unicode}
use disapyr_link.Http.{
  Request, World, Handler, Exit, returned, panicked, status, write, write_header, http_error,
}
use disapyr_link.Handler.Probe.{is_probe_request}
use disapyr_link.Handler.Mask.{mask_token_in_path}
use disapyr_link.Handler.Middleware.{middleware, before_next, recovered}
use disapyr_link.Handler.RateLimit.{Buckets, Net, RateLimiter, limit, client_ip, get_limiter}
use disapyr_link.Handler.Admin.{basic_auth, admitted}
use disapyr_link.Server.Mux.{Pattern, choose, segments_of, is_clean}
use disapyr_link.Server.Routes.{
  Target, Deps, Turn, Limiters, handle, serve_mux, serve, routes, chosen, not_allowed,
  allowed_methods, slash_missing,
}
use disapyr_link.Server.Routes.Spec.{target_of}
use disapyr_link.Server.Routes.Keeps.{route_of}

-- A handler such as that of a redirect: its answer is none with the status 200.
abbrev pub Redirects : Handler → Type 0
Redirects h = (r : Request) (w : World) → w.out.sent ≡ none → status (h r w).0 ≢ 200

module _ (P : Db → Type 0) where
  abbrev pub Grants : World × Exit → Type 0
  Grants x = status x.0 ≡ 200 → P x.0.db

  pub limit-Grants :
      (k : Buckets) (u : Unicode) (net : Net) (now : ℤ) (rl : RateLimiter k) (next : Handler)
      (r : Request) (w : World)
      → w.out.sent ≡ none
      → Grants (next r w)
      → Grants (limit k u net now rl next r w).1
  unfolding limit http_error write write_header
  limit-Grants k u net now rl next r w fresh h = elim (Bool-cases (eqb_ℤ rl.per_minute (pos 0))) [
    | inl e ↦ rw e h
    | inr e ↦ elim (Bool-cases (k.allow now (get_limiter k now (client_ip k u net rl r) rl).0).1) [
      | inl a ↦ rw (e, a) h
      | inr a ↦ rw (e, a, fresh) (λ k. ground arith)
    ]
  ]

  -- The guard is passed with credentials that it admits, by a user and a password that are not empty.
  pub basic_auth-Grants :
      (sha : Bytes → Bytes) (parse : Request → Option (Bytes × Bytes)) (user pass : Bytes)
      (next : Handler) (r : Request) (w : World)
      → w.out.sent ≡ none
      → ((same user [] || same pass []) ≡ false
          → admitted sha user pass (parse r) ≡ true
          → Grants (next r w))
      → Grants (basic_auth sha parse user pass next r w)
  unfolding basic_auth http_error write write_header
  basic_auth-Grants sha parse user pass next r w fresh h =
      elim (Bool-cases (same user [] || same pass [])) [
        | inl e ↦ rw (e, fresh) (λ k. ground arith)
        | inr e ↦ elim (Bool-cases (admitted sha user pass (parse r))) [
          | inl a ↦ rw (e, a) (h e a)
          | inr a ↦ rw (e, a, fresh) (λ k. ground arith)
        ]
      ]

  recovered-Grants : (masked : Bytes) (x : World × Exit) → Grants x → Grants (recovered masked x)
  unfolding http_error write write_header
  recovered-Grants masked (w, returned) h = h
  recovered-Grants masked (w, panicked value) h = elim (Option-cases w.out.sent) [
    | inl e ↦ rw e (λ k. ground arith)
    | inr (first, e) ↦ let h' = rw e at h in rw e h'
  ]

  middleware-Grants :
      (u : Unicode) (next : Handler) (r : Request) (w : World)
      → w.out.sent ≡ none
      → ((v : World) → v.out.sent ≡ none → v.db ≡ w.db → Grants (next r v))
      → Grants (middleware u next r w)
  unfolding middleware write_header
  middleware-Grants u next r w fresh h = elim (Bool-cases (is_probe_request u r.path)) [
    | inl e ↦ rw (e, fresh) (λ k. ground arith)
    | inr e ↦ rw e (
        let v = before_next (mask_token_in_path r.path) r w in
        recovered-Grants (mask_token_in_path r.path) (next r v) (h v fresh refl))
  ]

  module _ (k : Buckets) (d : Deps) (e : Turn) (s : Limiters k) where
    not_allowed-Grants :
        (ss : List Bytes) (w : World) → w.out.sent ≡ none → Grants (not_allowed k ss w, returned)
    unfolding http_error write write_header
    not_allowed-Grants ss w fresh = elim (Bool-cases (same (allowed_methods k ss) [])) [
      | inl h ↦ rw (h, fresh) (λ k. ground arith)
      | inr h ↦ rw (h, fresh) (λ k. ground arith)
    ]

    chosen-Grants :
        (r : Request) (ss : List Bytes) (q : Option (Pattern Target × Bytes)) (w : World)
        → w.out.sent ≡ none
        → ((t : Target) (token : Bytes)
            → target_of q ≡ some (t, token)
            → Grants (handle k d e s t (record r { token = token }) w).1)
        → Grants (chosen k d e s r ss q w).1
    chosen-Grants r ss none w fresh h = not_allowed-Grants ss w fresh
    chosen-Grants r ss (some (p, token)) w fresh h = h p.target token refl

    serve_mux-Grants :
        (r : Request) (w : World)
        → w.out.sent ≡ none
        → Redirects d.moved
        → ((t : Target) (token : Bytes)
            → route_of d r ≡ some (t, token)
            → Grants (handle k d e s t (record r { token = token }) w).1)
        → Grants (serve_mux k d e s r w).1
    unfolding serve_mux route_of
    serve_mux-Grants r w fresh moved h =
        let ss = map d.unescape (segments_of (d.escaped_path r)) in
        elim (Bool-cases (not (is_clean (d.escaped_path r)) || slash_missing k r.method ss)) [
          | inl q ↦ rw q (λ good. absurd (moved r w fresh good))
          | inr q ↦ rw q (chosen-Grants r ss (choose routes r.method ss) w fresh h)
        ]

    -- What the handler of the route grants, the server grants.
    pub serve-Grants :
        (r : Request) (w : World)
        → w.out.sent ≡ none
        → Redirects d.moved
        → ((v : World) (t : Target) (token : Bytes)
            → v.out.sent ≡ none
            → v.db ≡ w.db
            → route_of d r ≡ some (t, token)
            → Grants (handle k d e s t (record r { token = token }) v).1)
        → Grants (serve k d e s r w).1
    unfolding serve
    serve-Grants r w fresh moved h =
        middleware-Grants d.unicode (λ r' w'. (serve_mux k d e s r' w').1) r w fresh
          (λ v clear same_db.
            serve_mux-Grants r v clear moved (λ t token found. h v t token clear same_db found))
