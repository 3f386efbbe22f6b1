-- ===== src/Server/Routes/Life.antt =====
-- A secret from the request that stores it to the request that reveals it, through the routes of
-- cmd/server/main.go.
use disapyr_link.Common.{
  ℕ, ℤ, pos, ◌≡◌, refl, ap, ◌∙◌, inl, inr, Bool, true, false, ◌||◌, [], ◌∷◌, map, arith, Bytes,
  same, lower_ascii, has_prefix, contains, codes, some, sym, subst, eqb_ℤ, Bool-cases,
}
use disapyr_link.Model.{CreateSecretInput, SecretPayload, ok}
use disapyr_link.Strings.{Unicode, split}
use disapyr_link.Encoding.Hex.{AreBytes}
use disapyr_link.Encoding.Base64
use disapyr_link.Encoding.Base64.{decode-encode, decode-AreBytes}
use disapyr_link.Repository.{completed, live, stamped, expiry, new_row}
use disapyr_link.Service.{create}
use disapyr_link.Service.Create.{create-ok, retrieve-create}
use disapyr_link.Http.{Request, World, Handler, returned, fresh_writer, status}
use disapyr_link.Handler.Probe.{is_probe_request}
use disapyr_link.Handler.Probe.Laws.{is_blocked, is_probe_request-eq_blocked}
use disapyr_link.Handler.Probe.Links.{is_probe_request-link}
use disapyr_link.Handler.Mask.{mask_token_in_path}
use disapyr_link.Handler.Middleware.{middleware, before_next}
use disapyr_link.Handler.RateLimit.{Buckets, Net, RateLimiter, limit, client_ip, get_limiter}
use disapyr_link.Handler.Secrets.{
  CreateBody, max_bytes_reader, body_limit, create_secret, reveal_secret, payload, payload_json,
  token_json,
}
use disapyr_link.Handler.Secrets.Reveal.{created-ok, create_secret-created, reveal_secret-found}
use disapyr_link.Server.Mux.{choose, segments_of, is_clean}
use disapyr_link.Server.Routes.{
  create as create_route, post, Deps, Turn, Limiters, handle, serve_mux, serve,
}
use disapyr_link.Server.Routes.Link.{
  KeepsPlain, IsToken, encode-IsToken, reveal_path, serve_mux-chosen, serve_mux-reveal,
}

-- The limiter lets a request pass.
abbrev pub admits : (k : Buckets) → Unicode → Net → ℤ → RateLimiter k → Request → Bool
admits k u net now rl r =
    eqb_ℤ rl.per_minute (pos 0) || (k.allow now (get_limiter k now (client_ip k u net rl r) rl).0).1

limit-admitted :
    (k : Buckets) (u : Unicode) (net : Net) (now : ℤ) (rl : RateLimiter k) (next : Handler)
    (r : Request) (w : World)
    → admits k u net now rl r ≡ true
    → (limit k u net now rl next r w).1 ≡ next r w
unfolding limit
limit-admitted k u net now rl next r w h = elim (Bool-cases (eqb_ℤ rl.per_minute (pos 0))) [
  | inl e ↦ rw e refl
  | inr e ↦
      let a : (k.allow now (get_limiter k now (client_ip k u net rl r) rl).0).1 ≡ true =
        ground arith in
      rw (e, a) refl
]

-- A request that is no probe, whose handler returns, gets the handler's answer.
pub middleware-returned :
    (u : Unicode) (next : Handler) (r : Request) (w v : World)
    → is_probe_request u r.path ≡ false
    → next r (before_next (mask_token_in_path r.path) r w) ≡ (v, returned)
    → (middleware u next r w).0 ≡ v
unfolding middleware
middleware-returned u next r w v passes h = rw (passes, h) refl

root-passes : (u : Unicode) → is_probe_request u (codes "/") ≡ false
unfolding is_blocked lower_ascii has_prefix contains
root-passes u = is_probe_request-eq_blocked u (codes "/") refl ∙ refl

module _ (k : Buckets) (d : Deps) (e : Turn) (s : Limiters k) (r : Request) (w : World) where
  serve_mux-create :
      (v : World)
      → KeepsPlain d.unescape
      → d.escaped_path r ≡ codes "/"
      → r.method ≡ post
      → serve_mux k d e s r v ≡ handle k d e s create_route (record r { token = [] }) v
  unfolding choose same is_clean segments_of split has_prefix
  serve_mux-create v keeps path method =
      serve_mux-chosen k d e s r v ([] ∷ []) (ap is_clean path ∙ refl)
        (ap (λ p. map d.unescape (segments_of p)) path ∙ ap (λ u. u ∷ []) (keeps [] tt))
        (rw method refl)
      ∙ rw method refl

  -- The request that stores a secret gets the answer of CreateSecret.
  serve-create :
      KeepsPlain d.unescape
      → r.path ≡ codes "/"
      → d.escaped_path r ≡ codes "/"
      → r.method ≡ post
      → admits k d.unicode d.net e.clock s.for_create r ≡ true
      → (serve k d e s r w).1.0
        ≡ (create_secret d.decode d.max_bytes e.answers r
            (before_next (mask_token_in_path r.path) r w)).0
  unfolding serve handle create_secret client_ip
  serve-create keeps path escaped method admitted =
      middleware-returned d.unicode (λ q y. (serve_mux k d e s q y).1) r w _
        (ap (is_probe_request d.unicode) path ∙ root-passes d.unicode)
        (ap (λ y. y.1)
            (serve_mux-create (before_next (mask_token_in_path r.path) r w) keeps escaped method)
          ∙ limit-admitted k d.unicode d.net e.clock s.for_create
              (create_secret d.decode d.max_bytes e.answers) (record r { token = [] }) _ admitted)

  -- The request that reveals it gets the answer of RevealSecret.
  serve-reveal :
      (t : Bytes)
      → KeepsPlain d.unescape
      → IsToken t
      → is_probe_request d.unicode (reveal_path t) ≡ false
      → r.path ≡ reveal_path t
      → d.escaped_path r ≡ reveal_path t
      → r.method ≡ post
      → admits k d.unicode d.net e.clock s.for_reveal r ≡ true
      → (serve k d e s r w).1.0
        ≡ (reveal_secret e.answers
            (record r { token = t })
            (before_next (mask_token_in_path r.path) r w)).0
  unfolding serve handle reveal_secret client_ip
  serve-reveal t keeps v passes path escaped method admitted =
      let w' = before_next (mask_token_in_path r.path) r w in
      middleware-returned d.unicode (λ q y. (serve_mux k d e s q y).1) r w _
        (ap (is_probe_request d.unicode) path ∙ passes)
        (ap (λ y. y.1) (serve_mux-reveal k d e s t r w' v keeps escaped method)
          ∙ limit-admitted k d.unicode d.net e.clock s.for_reveal (reveal_secret e.answers)
              (record r { token = t }) w' admitted)

-- What the server is given to keep, it gives back. A POST request for "/" whose body decodes to the base64
-- texts of `ct` and `n`, and for which the service creates a token from at least one random byte, is
-- answered with the token. A POST request for "/s/", the token and "/reveal" to the tables as they then
-- are is answered with the status 200 and encodings that decode to `ct` and `n`, if its first statement
-- reaches the database while the secret has not expired. This holds behind the middleware, the mux and the
-- limiters, if these let the two requests pass, the paths have no escapes, and what has no percent sign is
-- left as it is when it is unescaped.
pub serve-payload :
    (k : Buckets) (d : Deps) (e e' : Turn) (s s' : Limiters k) (r r' : Request) (w : World)
    (body : CreateBody) (b : ℕ) (bs ct n t : Bytes)
    → KeepsPlain d.unescape
    → AreBytes (b ∷ bs)
    → r.path ≡ codes "/"
    → d.escaped_path r ≡ codes "/"
    → r.method ≡ post
    → admits k d.unicode d.net e.clock s.for_create r ≡ true
    → d.decode (max_bytes_reader (body_limit d.max_bytes) r.body) ≡ some body
    → Base64.decode body.ciphertext ≡ some ct
    → Base64.decode body.nonce ≡ some n
    → e.answers.random ≡ ok (b ∷ bs)
    → (create d.max_bytes
        (ok (b ∷ bs))
        e.answers.now
        e.answers.main_call
        e.answers.event_call
        w.db
        (record { ciphertext = ct; nonce = n; expires_in = body.expires_in })).1
      ≡ ok t
    → w.out ≡ fresh_writer
    → r'.path ≡ reveal_path t
    → d.escaped_path r' ≡ reveal_path t
    → r'.method ≡ post
    → admits k d.unicode d.net e'.clock s'.for_reveal r' ≡ true
    → e'.answers.main_call.verdict ≡ completed
    → live e'.answers.main_call.now
        (stamped e.answers.main_call (expiry e.answers.now body.expires_in))
      ≡ true
    → let w₁ = (serve k d e s r w).1.0 in
      let w₂ = (serve k d e' s' r' (record w₁ { out = fresh_writer })).1.0 in
      (w₁.out.body ≡ token_json t)
      × ((p : SecretPayload) × (w₂.out.body ≡ payload_json p)
          × (Base64.decode p.ciphertext ≡ some ct)
          × (Base64.decode p.nonce ≡ some n))
      × (status w₂ ≡ 200)
serve-payload k d e e' s s' r r' w body b bs ct n t keeps bytes path escaped method admitted hd hc
      hn hr made fresh path' escaped' method' admitted' done alive =
    let a = e.answers in
    let a' = e'.answers in
    let input : CreateSecretInput = record {
      ciphertext = ct;
      nonce = n;
      expires_in = body.expires_in;
    } in
    let service = create d.max_bytes (ok (b ∷ bs)) a.now a.main_call a.event_call w.db input in
    let v = before_next (mask_token_in_path r.path) r w in
    let (_, named, _, _) =
      create-ok d.max_bytes (b ∷ bs) a.now a.main_call a.event_call w.db input made in
    let token : IsToken t = subst IsToken (sym named) (encode-IsToken b bs bytes) in
    let from_service =
      serve-create k d e s r w keeps path escaped method admitted
      ∙ create_secret-created d.decode d.max_bytes a r v body (b ∷ bs) ct n hd hc hn hr in
    let (answered, stored) =
      created-ok v service made (ap (λ out. out.sent) fresh, ap (λ out. out.body) fresh) in
    let w₁ = record (serve k d e s r w).1.0 { out = fresh_writer } in
    let (first, _) =
      retrieve-create d.max_bytes (b ∷ bs) a.now a.main_call a.event_call a'.main_call a'.event_call
        w.db input made done alive in
    let passes : is_probe_request d.unicode (reveal_path t) ≡ false =
      ap (λ u. is_probe_request d.unicode (reveal_path u)) named
      ∙ (is_probe_request-link d.unicode (b ∷ bs) bytes).1 in
    let seen = serve-reveal k d e' s' r' w₁ t keeps token passes path' escaped' method' admitted' in
    let (shown₂, ok₂, _) =
      reveal_secret-found a' (record r' { token = t })
        (before_next (mask_token_in_path r'.path) r' w₁) service.0 t
        (ap (λ q. q.db) from_service ∙ stored) refl (refl, refl) first in
    (
      ap (λ q. q.out.body) from_service ∙ answered,
      (
        payload (new_row a.now a.main_call t input),
        ap (λ q. q.out.body) seen ∙ shown₂,
        decode-encode ct (decode-AreBytes body.ciphertext hc),
        decode-encode n (decode-AreBytes body.nonce hn),
      ),
      ap (λ q. status q) seen ∙ ok₂,
    )
