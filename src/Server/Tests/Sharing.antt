-- ===== src/Server/Tests/Sharing.antt =====
-- A secret that is stored through the routes of cmd/server/main.go, and its link revealed.
use disapyr_link.Common.{
  ◌+ℤ◌, wrap64, ◌*ℤ◌, Bytes, arith, pos, ◌≡◌, refl, [], ◌∷◌, same, codes, some, List, ◌≤◌,
}
use disapyr_link.Repository.{store, fetch_and_delete, record_event, expiry}
use disapyr_link.Model.{ok, SecretPayload, errors_is}
use disapyr_link.Encoding.Hex
use disapyr_link.Encoding.Base64
use disapyr_link.Service as Service
use disapyr_link.Service.{generate_token, retrieve}
use disapyr_link.Handler.Secrets.{
  CreateBody, create_secret, reveal_secret, payload_json, token_json,
}
use disapyr_link.Http.{respond, write_header, fresh_writer, returned, status}
use disapyr_link.Handler.RateLimit.{limit, get_limiter}
use disapyr_link.Server.Routes.{Deps, Turn, serve}
use disapyr_link.Repository.Rows.{rows_with}
use disapyr_link.Server.Routes.Life.{serve-payload}
use disapyr_link.Server.Routes.Keeps.{route_of}
use disapyr_link.Server.History.{Occurrence, asked, ticked, System, happen}
use disapyr_link.Server.History.Once.{draws, answers, answers-le-one}
use disapyr_link.Server.Tests.{counting, clock_call, deps, turn, limiters, world, posting}

-- The redirect of the mux answers with another status, and the body of a request is a secret.
abbrev sharing_deps : Deps
sharing_deps = record deps {
  moved = λ r w. (respond (write_header 301) w, returned);
  decode =
      λ s. some (record { ciphertext = codes "AQI="; nonce = codes "Aw=="; expires_in = pos 60 });
}

abbrev drawing : Turn
drawing = record turn { answers = record turn.answers { random = ok (171 ∷ 5 ∷ []) } }

abbrev link : Bytes
link = codes "ab05"

-- The secret is stored, and its link is revealed twice, the second time after the worker.
abbrev sharing : List Occurrence
sharing =
    asked drawing (posting (codes "/"))
    ∷ asked turn (posting (codes "/s/ab05/reveal"))
    ∷ ticked clock_call clock_call
    ∷ asked turn (posting (codes "/s/ab05/reveal"))
    ∷ []

abbrev sharing_system : System counting sharing_deps
sharing_system = record { limiters = limiters; world = world }

answers-le-one_example : answers counting sharing_deps link sharing sharing_system ≤ 1
unfolding draws rows_with same generate_token write_header Hex.encode
answers-le-one_example =
    answers-le-one counting sharing_deps link (λ r w. refl) (λ r w. refl)
      (λ r w h. rw h (λ good. ground arith)) sharing sharing_system refl (omega arith)

-- The first of the two gets the secret.
answers-sharing : answers counting sharing_deps link sharing sharing_system ≡ 1
unfolding answers same route_of happen limit reveal_secret retrieve fetch_and_delete record_event
    errors_is create_secret Base64.decode Service.create store Hex.encode expiry
answers-sharing = refl

abbrev shared : CreateBody
shared = record { ciphertext = codes "AQI="; nonce = codes "Aw=="; expires_in = pos 60 }

serve-payload_example :
    let w₁ = (serve counting sharing_deps drawing limiters (posting (codes "/")) world).1.0 in
    let w₂ =
      (serve counting sharing_deps turn limiters
        (posting (codes "/s/ab05/reveal"))
        (record w₁ { out = fresh_writer })).1.0 in
    (w₁.out.body ≡ token_json link)
    × ((p : SecretPayload) × (w₂.out.body ≡ payload_json p)
        × (Base64.decode p.ciphertext ≡ some (1 ∷ 2 ∷ []))
        × (Base64.decode p.nonce ≡ some (3 ∷ [])))
    × (status w₂ ≡ 200)
unfolding Service.create store Hex.encode expiry Base64.decode same get_limiter ◌+ℤ◌ wrap64 ◌*ℤ◌
serve-payload_example =
    serve-payload counting sharing_deps drawing turn limiters limiters (posting (codes "/"))
      (posting (codes "/s/ab05/reveal")) world shared 171 (5 ∷ []) (1 ∷ 2 ∷ []) (3 ∷ []) link
      (λ u h. refl) (omega arith, (omega arith, tt)) refl refl refl refl refl refl refl refl refl
      refl refl refl refl refl refl refl
