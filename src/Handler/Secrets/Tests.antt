-- ===== src/Handler/Secrets/Tests.antt =====
-- The life of one secret, for the theorems about `CreateSecret` and `RevealSecret` of
-- internal/handler/handler.go.
use disapyr_link.Common.{pos, ◌+ℤ◌, ◌*ℤ◌, wrap64, ◌≡◌, refl, same, [], ◌∷◌, Bytes, codes, some}
use disapyr_link.Model.{ok, errors_is}
use disapyr_link.Encoding.Hex
use disapyr_link.Encoding.Base64
use disapyr_link.Repository.{Call, completed, store, expiry, fetch_and_delete, record_event}
use disapyr_link.Service.{create, retrieve}
use disapyr_link.Http.{Request, World, fresh_writer, status, write, http_error}
use disapyr_link.Handler.Secrets.{Decoder, CreateBody, Answers, create_secret, reveal_secret}

abbrev call : Call
call = record {
  verdict = completed;
  now = pos 100;
  uuid = 1;
  violation = codes "dup";
  stamp = λ t. t;
}

abbrev drawn : Bytes
drawn = 171 ∷ 5 ∷ []

abbrev answers : Answers
answers = record { now = pos 50; main_call = call; event_call = call; random = ok drawn }

abbrev body : CreateBody
body = record { ciphertext = codes "AQI="; nonce = codes "Aw=="; expires_in = pos 60 }

-- A decoder of one body.
abbrev decode : Decoder
decode r = some body

abbrev request : Bytes → Request
request token = record {
  method = codes "POST";
  path = codes "/";
  host = codes "localhost";
  remote_addr = codes "10.0.0.1";
  headers = [];
  body = [];
  token = token;
}

abbrev world : World
world = record {
  db = record { secrets = []; events = []; app_logs = [] };
  logs = [];
  out = fresh_writer;
}

abbrev created : World
created = (create_secret decode (pos 100) answers (request []) world).0

abbrev revealed : World
revealed =
    (reveal_secret answers (request (Hex.encode drawn)) (record created { out = fresh_writer })).0

abbrev revealed_again : World
revealed_again =
    (reveal_secret answers (request (Hex.encode drawn)) (record revealed { out = fresh_writer })).0

-- The secret is shown once.
revealed-again : (status revealed ≡ 200) × (status revealed_again ≡ 404)
unfolding create_secret reveal_secret create store expiry Hex.encode Base64.decode ◌+ℤ◌ wrap64 ◌*ℤ◌
    retrieve fetch_and_delete record_event same write errors_is http_error
revealed-again = (refl, refl)
