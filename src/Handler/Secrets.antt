-- ===== src/Handler/Secrets.antt =====
-- `CreateSecret` and `RevealSecret` of internal/handler/handler.go. The decoding of a JSON object by
-- encoding/json is an argument; the reader that it is given is that of `http.MaxBytesReader`.
pub mod Limit
pub mod Reveal
pub mod Kept
mod Tests
use disapyr_link.Common.{
  ℕ, ℤ, pos, pos_part, ◌+ℤ◌, ◌*ℤ◌, wrap64, quot, Bool, [], ◌∷◌, ◌++◌, Bytes, length, if◌then◌else◌,
  ltb, codes, Option, none, some, take,
}
use disapyr_link.Model.{
  Secret, SecretPayload, not_found, too_large, errors_is, error_text, Result, ok, err,
}
use disapyr_link.Repository.{Db, Call}
use disapyr_link.Service.{create, retrieve}
use disapyr_link.Encoding.Base64
use disapyr_link.Encoding.Json.{json_string}
use disapyr_link.Http.{
  Request, set_header, write, http_error, World, error, log, respond, Exit, returned,
}

-- The body of a request as far as it can be read, and whether it was cut at the limit.
pub record Reader : Type 0 where
  pub visible : Bytes
  pub cut : Bool

-- `http.MaxBytesReader`; a negative limit counts as zero.
unfoldable pub max_bytes_reader : ℤ → Bytes → Reader
max_bytes_reader limit body = record {
  visible = take (pos_part limit) body;
  cut = ltb (pos_part limit) (length body);
}

pub record CreateBody : Type 0 where
  pub ciphertext : Bytes
  pub nonce : Bytes
  pub expires_in : ℤ

-- `json.NewDecoder(r).Decode(&body)`: nothing on an error.
abbrev pub Decoder : Type 0
Decoder = Reader → Option CreateBody

-- h.maxBytes*4/3 + 16384, in int64.
unfoldable pub body_limit : ℤ → ℤ
unfolding wrap64 quot ◌+ℤ◌ ◌*ℤ◌
body_limit max_bytes = wrap64 (quot (wrap64 (max_bytes *ℤ pos 4)) 3 +ℤ pos 16384)

-- What the database, the clock and the source of randomness answer to one request.
pub record Answers : Type 0 where
  pub now : ℤ
  pub main_call : Call
  pub event_call : Call
  pub random : Result Bytes

abbrev pub ok_json : Bytes → World → World
ok_json body = respond (λ out. write body (record out {
  headers = set_header (codes "Content-Type") (codes "application/json") out.headers;
}))

abbrev pub fail : Bytes → ℕ → World → World
fail message code = respond (http_error message code)

-- {"token":…}
abbrev pub token_json : Bytes → Bytes
token_json t = codes "{\"token\":" ++ (json_string t ++ codes "}\n")

-- {"ciphertext":…,"nonce":…}
abbrev pub payload_json : SecretPayload → Bytes
payload_json p =
    codes "{\"ciphertext\":"
    ++ (json_string p.ciphertext ++ (codes ",\"nonce\":" ++ (json_string p.nonce ++ codes "}\n")))

abbrev pub created : World → Db × Result Bytes → World
created w (db, ok t) = ok_json (token_json t) (record w { db = db })
created w (db, err e) =
    if errors_is e too_large
    then fail (codes "secret too large") 413 (record w { db = db })
    else fail (codes "internal error") 500 (
        log error (codes "create secret") ((codes "err", error_text e) ∷ []) (record w { db = db }))

-- The checks of the fields and the call of the service.
abbrev pub create_decoded : ℤ → Answers → CreateBody → Option Bytes → Option Bytes → World → World
create_decoded max_bytes a body none n w = fail (codes "invalid ciphertext encoding") 400 w
create_decoded max_bytes a body (some ct) none w = fail (codes "invalid nonce encoding") 400 w
create_decoded max_bytes a body (some ct) (some n) w = created w (
    create max_bytes a.random a.now a.main_call a.event_call w.db
      (record { ciphertext = ct; nonce = n; expires_in = body.expires_in }))

abbrev pub create_body : ℤ → Answers → Option CreateBody → World → World
create_body max_bytes a none w = fail (codes "invalid request body") 400 w
create_body max_bytes a (some body) w =
    create_decoded max_bytes a body (Base64.decode body.ciphertext) (Base64.decode body.nonce) w

-- `CreateSecret`.
unfoldable pub create_secret : Decoder → ℤ → Answers → Request → World → World × Exit
unfolding max_bytes_reader body_limit
create_secret decode max_bytes a r w =
    (create_body max_bytes a (decode (max_bytes_reader (body_limit max_bytes) r.body)) w, returned)

abbrev pub payload : Secret → SecretPayload
payload s = record { ciphertext = Base64.encode s.ciphertext; nonce = Base64.encode s.nonce }

abbrev pub shown : World → Db × Result Secret → World
shown w (db, ok s) = ok_json (payload_json (payload s)) (record w { db = db })
shown w (db, err e) =
    if errors_is e not_found
    then fail (codes "not found") 404 (record w { db = db })
    else fail (codes "internal error") 500 (
        log error (codes "reveal secret") ((codes "err", error_text e) ∷ []) (record w { db = db }))

-- `RevealSecret`.
unfoldable pub reveal_secret : Answers → Request → World → World × Exit
reveal_secret a r w = (shown w (retrieve a.main_call a.event_call w.db r.token), returned)
