-- ===== src/Handler/Secrets/Reveal.antt =====
-- A secret from `CreateSecret` to `RevealSecret` of internal/handler/handler.go.
use disapyr_link.Common.{ℤ, ◌≡◌, refl, ap, ◌∙◌, true, false, List, [], Bytes, any, none, some}
use disapyr_link.Model.{
  Secret, CreateSecretInput, SecretPayload, sentinel, not_found, errors_is, Result, ok, err,
  ok-injective, err-injective,
}
use disapyr_link.Repository.{Db, Call, completed, live, stamped, expiry, new_row}
use disapyr_link.Repository.Fetch.{fetch_and_delete-not_found_iff}
use disapyr_link.Repository.Store.{store-ok, clashes, any-fetchable_free}
use disapyr_link.Service.{create, retrieve}
use disapyr_link.Service.Create.{create-ok, retrieve-create}
use disapyr_link.Encoding.Base64
use disapyr_link.Encoding.Base64.{decode-encode, decode-AreBytes}
use disapyr_link.Http.{Request, write, write_header, http_error, World, fresh_writer, status}
use disapyr_link.Handler.Secrets.{
  Decoder, CreateBody, Answers, max_bytes_reader, body_limit, create_secret, reveal_secret, created,
  shown, payload, payload_json, token_json,
}

-- Nothing is sent or written yet.
abbrev pub IsFresh : World → Type 0
IsFresh w = (w.out.sent ≡ none) × (w.out.body ≡ [])

-- What the handlers do with the answer of the service.
shown-ok :
    (w : World) (r : Db × Result Secret) {s : Secret}
    → IsFresh w
    → r.1 ≡ ok s
    → ((shown w r).out.body ≡ payload_json (payload s))
      × (status (shown w r) ≡ 200)
      × ((shown w r).db ≡ r.0)
unfolding write write_header
shown-ok w (db, ok s) h e = rw (h.0, h.1, ok-injective e) (refl, refl, refl)
shown-ok w (db, err x) h e = cc

shown-not_found :
    (w : World) (r : Db × Result Secret)
    → IsFresh w
    → r.1 ≡ err (sentinel not_found)
    → status (shown w r) ≡ 404
unfolding http_error write write_header errors_is
shown-not_found w (db, ok s) h e = cc
shown-not_found w (db, err x) h e =
    let missing : x ≡ sentinel not_found = err-injective e in rw (h.0, missing) refl

pub created-ok :
    (w : World) (r : Db × Result Bytes) {t : Bytes}
    → r.1 ≡ ok t
    → IsFresh w
    → ((created w r).out.body ≡ token_json t) × ((created w r).db ≡ r.0)
unfolding write write_header
created-ok w (db, ok t) h e = rw (e.1, ok-injective h) (refl, refl)
created-ok w (db, err x) h e = cc

pub create_secret-created :
    (decode : Decoder) (max_bytes : ℤ) (a : Answers) (r : Request) (w : World) (body : CreateBody)
    (b ct n : Bytes)
    → decode (max_bytes_reader (body_limit max_bytes) r.body) ≡ some body
    → Base64.decode body.ciphertext ≡ some ct
    → Base64.decode body.nonce ≡ some n
    → a.random ≡ ok b
    → (create_secret decode max_bytes a r w).0
      ≡ created w (
          create max_bytes
            (ok b)
            a.now
            a.main_call
            a.event_call
            w.db
            (record { ciphertext = ct; nonce = n; expires_in = body.expires_in }))
unfolding create_secret
create_secret-created decode max_bytes a r w body b ct n hd hc hn hr = simp (hd, hc, hn, hr)

-- A fetch that reaches the database after the rows of a token are gone.
retrieve-gone :
    (c c' : Call) (db : Db) (s : Secret) (rs : List Secret)
    → any (clashes s) rs ≡ false
    → db.secrets ≡ rs
    → c.verdict ≡ completed
    → (retrieve c c' db s.token).1 ≡ err (sentinel not_found)
unfolding retrieve
retrieve-gone c c' db s rs free e done =
    (fetch_and_delete-not_found_iff c c' db s.token).1
      (done, rw e (any-fetchable_free c.now s rs free))

module _ (a : Answers) (r : Request) (w : World) (db : Db) (t : Bytes) (tables : w.db ≡ db)
    (token : r.token ≡ t) (fresh : IsFresh w) where
  pub reveal_secret-found :
      {s : Secret}
      → (retrieve a.main_call a.event_call db t).1 ≡ ok s
      → ((reveal_secret a r w).0.out.body ≡ payload_json (payload s))
        × (status (reveal_secret a r w).0 ≡ 200)
        × ((reveal_secret a r w).0.db ≡ (retrieve a.main_call a.event_call db t).0)
  unfolding reveal_secret
  reveal_secret-found h =
      let seen : retrieve a.main_call a.event_call w.db r.token
          ≡ retrieve a.main_call a.event_call db t =
        λ i. retrieve a.main_call a.event_call (tables i) (token i) in
      let (x, y, z) =
        shown-ok w (retrieve a.main_call a.event_call w.db r.token) fresh
          (ap (λ q. q.1) seen ∙ h) in
      (x, y, z ∙ ap (λ q. q.0) seen)

  reveal_secret-missing :
      (retrieve a.main_call a.event_call db t).1 ≡ err (sentinel not_found)
      → status (reveal_secret a r w).0 ≡ 404
  unfolding reveal_secret
  reveal_secret-missing h =
      let seen : retrieve a.main_call a.event_call w.db r.token
          ≡ retrieve a.main_call a.event_call db t =
        λ i. retrieve a.main_call a.event_call (tables i) (token i) in
      shown-not_found w (retrieve a.main_call a.event_call w.db r.token) fresh
        (ap (λ q. q.1) seen ∙ h)

-- The whole life of a secret, through the two handlers. A request whose body decodes to base64 texts
-- `ct` and `n`, and for which the service creates a token, is answered with that token. The first
-- request to reveal the token that reaches the database, while the secret has not expired, is
-- answered with the status 200 and encodings that decode to `ct` and `n`; the next one that reaches
-- the database is answered with the status 404.
pub reveal_secret-create_secret :
    (decode : Decoder) (max_bytes : ℤ) (a a' a'' : Answers) (r r' r'' : Request) (w : World)
    (body : CreateBody) (b ct n t : Bytes)
    → decode (max_bytes_reader (body_limit max_bytes) r.body) ≡ some body
    → Base64.decode body.ciphertext ≡ some ct
    → Base64.decode body.nonce ≡ some n
    → a.random ≡ ok b
    → (create max_bytes
        (ok b)
        a.now
        a.main_call
        a.event_call
        w.db
        (record { ciphertext = ct; nonce = n; expires_in = body.expires_in })).1
      ≡ ok t
    → w.out ≡ fresh_writer
    → a'.main_call.verdict ≡ completed
    → a''.main_call.verdict ≡ completed
    → live a'.main_call.now (stamped a.main_call (expiry a.now body.expires_in)) ≡ true
    → r'.token ≡ t
    → r''.token ≡ t
    → let w₁ = (create_secret decode max_bytes a r w).0 in
      let w₂ = (reveal_secret a' r' (record w₁ { out = fresh_writer })).0 in
      let w₃ = (reveal_secret a'' r'' (record w₂ { out = fresh_writer })).0 in
      (w₁.out.body ≡ token_json t)
      × ((p : SecretPayload) × (w₂.out.body ≡ payload_json p)
          × (Base64.decode p.ciphertext ≡ some ct)
          × (Base64.decode p.nonce ≡ some n))
      × (status w₂ ≡ 200)
      × (status w₃ ≡ 404)
unfolding create_secret reveal_secret
reveal_secret-create_secret decode max_bytes a a' a'' r r' r'' w body b ct n t hd hc hn hr made
      fresh ok' ok'' alive tok tok'' =
    let input : CreateSecretInput = record {
      ciphertext = ct;
      nonce = n;
      expires_in = body.expires_in;
    } in
    let row = new_row a.now a.main_call t input in
    let service = create max_bytes (ok b) a.now a.main_call a.event_call w.db input in
    let w₁ = (create_secret decode max_bytes a r w).0 in
    let from_service = create_secret-created decode max_bytes a r w body b ct n hd hc hn hr in
    let (answered, stored₁) =
      created-ok w service made (ap (λ out. out.sent) fresh, ap (λ out. out.body) fresh) in
    let db₁ : w₁.db ≡ service.0 = ap (λ v. v.db) from_service ∙ stored₁ in
    let (_, _, stored, _) = create-ok max_bytes b a.now a.main_call a.event_call w.db input made in
    let (_, free, _) = store-ok a.now a.main_call a.event_call w.db t input stored in
    let (first, gone) =
      retrieve-create max_bytes b a.now a.main_call a.event_call a'.main_call a'.event_call w.db
        input made ok' alive in
    let w₁' = record w₁ { out = fresh_writer } in
    let (shown₂, ok₂, tables₂) =
      reveal_secret-found a' r' w₁' service.0 t db₁ tok (refl, refl) first in
    let w₂' = record (reveal_secret a' r' w₁').0 { out = fresh_writer } in
    let nothing =
      retrieve-gone a''.main_call a''.event_call (retrieve a'.main_call a'.event_call service.0 t).0
        row w.db.secrets free gone ok'' in
    (
      ap (λ v. v.out.body) from_service ∙ answered,
      (
        payload row,
        shown₂,
        decode-encode ct (decode-AreBytes body.ciphertext hc),
        decode-encode n (decode-AreBytes body.nonce hn),
      ),
      ok₂,
      reveal_secret-missing a'' r'' w₂' (retrieve a'.main_call a'.event_call service.0 t).0 t
          tables₂ tok'' (refl, refl) nothing,
    )
