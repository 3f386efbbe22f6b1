-- ===== src/Server/Routes/Keeps.antt =====
-- What the routes of cmd/server/main.go, their limiters and guards and the middleware keep of the tables,
-- if the handlers keep it: a relation of the tables before and after, under which they may stay as they are.
use disapyr_link.Common.{
  ℤ, pos, ◌≡◌, refl, inl, inr, true, not, ◌||◌, List, [], map, Bytes, same, Bool-cases, sym, Option,
  none, some, subst, eqb_ℤ,
}
use disapyr_link.Repository.{Db}
use disapyr_link.Strings.{Unicode}
use disapyr_link.Http.{Request, World, Handler, Exit, returned, panicked}
use disapyr_link.Handler.Probe.{is_probe_request}
use disapyr_link.Handler.Mask.{mask_token_in_path}
use disapyr_link.Handler.Middleware.{middleware, before_next, recovered}
use disapyr_link.Handler.RateLimit.{Buckets, Net, RateLimiter, limit, client_ip, get_limiter}
use disapyr_link.Handler.Admin.{basic_auth, admitted}
use disapyr_link.Server.Mux.{Pattern, choose, segments_of, is_clean}
use disapyr_link.Server.Routes.{
  Target, Deps, Turn, Limiters, handle, serve_mux, serve, routes, chosen, not_allowed,
  allowed_methods, slash_missing,
}
use disapyr_link.Server.Routes.Spec.{target_of}

-- The target and the token that the mux finds for a request.
unfoldable pub route_of : Deps → Request → Option (Target × Bytes)
unfolding choose segments_of
route_of d r = target_of (choose routes r.method (map d.unescape (segments_of (d.escaped_path r))))

module _ (R : Db → Db → Type 0) (reflexive : (db : Db) → R db db) where
  abbrev pub Keeps : Handler → Type 0
  Keeps next = (r : Request) (w : World) → R w.db (next r w).0.db

  pub related : {x y : Db} → y ≡ x → R x y
  related {x} e = subst (R x) (sym e) (reflexive x)

  -- The guard lets the tables be changed only for credentials that it admits.
  pub basic_auth-Keeps :
      (sha : Bytes → Bytes) (parse : Request → Option (Bytes × Bytes)) (user pass : Bytes)
      (next : Handler) (r : Request) (w : World)
      → (admitted sha user pass (parse r) ≡ true → R w.db (next r w).0.db)
      → R w.db (basic_auth sha parse user pass next r w).0.db
  unfolding basic_auth
  basic_auth-Keeps sha parse user pass next r w h =
      elim (Bool-cases (same user [] || same pass [])) [
        | inl e ↦ rw e (reflexive w.db)
        | inr e ↦ elim (Bool-cases (admitted sha user pass (parse r))) [
          | inl a ↦ rw (e, a) (h a)
          | inr a ↦ rw (e, a) (reflexive w.db)
        ]
      ]

  pub limit-Keeps :
      (k : Buckets) (u : Unicode) (net : Net) (now : ℤ) (rl : RateLimiter k) (next : Handler)
      (r : Request) (w : World)
      → R w.db (next r w).0.db
      → R w.db (limit k u net now rl next r w).1.0.db
  unfolding limit
  limit-Keeps k u net now rl next r w h = elim (Bool-cases (eqb_ℤ rl.per_minute (pos 0))) [
    | inl e ↦ rw e h
    | inr e ↦ elim (Bool-cases (k.allow now (get_limiter k now (client_ip k u net rl r) rl).0).1) [
      | inl a ↦ rw (e, a) h
      | inr a ↦ rw (e, a) (reflexive w.db)
    ]
  ]

  recovered-Keeps :
      (masked : Bytes) (db : Db) (x : World × Exit) → R db x.0.db → R db (recovered masked x).0.db
  recovered-Keeps masked db (w, returned) h = h
  recovered-Keeps masked db (w, panicked value) h = h

  middleware-Keeps :
      (u : Unicode) (next : Handler) (r : Request) (w : World)
      → ((v : World) → R v.db (next r v).0.db)
      → R w.db (middleware u next r w).0.db
  unfolding middleware
  middleware-Keeps u next r w h = elim (Bool-cases (is_probe_request u r.path)) [
    | inl e ↦ rw e (reflexive w.db)
    | inr e ↦ rw e (
        let v = before_next (mask_token_in_path r.path) r w in
        recovered-Keeps (mask_token_in_path r.path) w.db (next r v) (h v))
  ]

  module _ (k : Buckets) (d : Deps) (e : Turn) (s : Limiters k) where
    not_allowed-Keeps : (ss : List Bytes) (w : World) → R w.db (not_allowed k ss w).db
    not_allowed-Keeps ss w = elim (Bool-cases (same (allowed_methods k ss) [])) [
      | inl h ↦ rw h (reflexive w.db)
      | inr h ↦ rw h (reflexive w.db)
    ]

    chosen-Keeps :
        (r : Request) (ss : List Bytes) (q : Option (Pattern Target × Bytes)) (w : World)
        → ((t : Target) (token : Bytes)
            → target_of q ≡ some (t, token)
            → R w.db (handle k d e s t (record r { token = token }) w).1.0.db)
        → R w.db (chosen k d e s r ss q w).1.0.db
    chosen-Keeps r ss none w h = not_allowed-Keeps ss w
    chosen-Keeps r ss (some (p, token)) w h = h p.target token refl

    serve_mux-Keeps :
        (r : Request) (w : World)
        → Keeps d.moved
        → ((t : Target) (token : Bytes)
            → route_of d r ≡ some (t, token)
            → R w.db (handle k d e s t (record r { token = token }) w).1.0.db)
        → R w.db (serve_mux k d e s r w).1.0.db
    unfolding serve_mux route_of
    serve_mux-Keeps r w moved h =
        let ss = map d.unescape (segments_of (d.escaped_path r)) in
        elim (Bool-cases (not (is_clean (d.escaped_path r)) || slash_missing k r.method ss)) [
          | inl e ↦ rw e (moved r w)
          | inr e ↦ rw e (chosen-Keeps r ss (choose routes r.method ss) w h)
        ]

    -- The server keeps what the handler of the route keeps.
    pub serve-Keeps :
        (r : Request) (w : World)
        → Keeps d.moved
        → ((v : World) (t : Target) (token : Bytes)
            → route_of d r ≡ some (t, token)
            → R v.db (handle k d e s t (record r { token = token }) v).1.0.db)
        → R w.db (serve k d e s r w).1.0.db
    unfolding serve
    serve-Keeps r w moved h =
        middleware-Keeps d.unicode (λ r' w'. (serve_mux k d e s r' w').1) r w
          (λ v. serve_mux-Keeps r v moved (h v))
