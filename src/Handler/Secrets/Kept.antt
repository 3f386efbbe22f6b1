-- ===== src/Handler/Secrets/Kept.antt =====
-- What `CreateSecret` and `RevealSecret` of internal/handler/handler.go do to the tables.
use disapyr_link.Common.{ℤ, ◌≡◌, refl, Bytes, sym, Option, none, some, subst, if_ind}
use disapyr_link.Model.{Secret, CreateSecretInput, errors_is, not_found, too_large, Result, ok, err}
use disapyr_link.Repository.{Db, store}
use disapyr_link.Service.{generate_token}
use disapyr_link.Service.Kept.{create_ind}
use disapyr_link.Encoding.Base64
use disapyr_link.Http.{Request, World}
use disapyr_link.Handler.Secrets.{
  Decoder, CreateBody, Answers, max_bytes_reader, body_limit, create_body, create_decoded,
  create_secret, created, shown,
}

-- The handlers leave the tables as the service does.
created-db : (w : World) (q : Db × Result Bytes) → (created w q).db ≡ q.0
created-db w (db, ok t) = refl
created-db w (db, err e) =
    if_ind (λ (v : World). v.db ≡ db) (errors_is e too_large) (λ h. refl) (λ h. refl)

pub shown-db : (w : World) (q : Db × Result Secret) → (shown w q).db ≡ q.0
shown-db w (db, ok s) = refl
shown-db w (db, err e) =
    if_ind (λ (v : World). v.db ≡ db) (errors_is e not_found) (λ h. refl) (λ h. refl)

module _ {ℓ} (P : Db → Type ℓ) where
  pub create_secret_ind :
      (decode : Decoder) (max_bytes : ℤ) (a : Answers) (r : Request) (w : World)
      → P w.db
      → ((t : Bytes) (input : CreateSecretInput)
          → generate_token a.random ≡ ok t
          → P (store a.now a.main_call a.event_call w.db t input).0)
      → P (create_secret decode max_bytes a r w).0.db
  unfolding create_secret
  create_secret_ind decode max_bytes a r w before after =
      parsed (decode (max_bytes_reader (body_limit max_bytes) r.body))
    where
      decoded :
          (body : CreateBody) (ct n : Option Bytes) → P (create_decoded max_bytes a body ct n w).db
      decoded body none n = before
      decoded body (some ct) none = before
      decoded body (some ct) (some n) = subst P (sym (created-db w _)) (
          create_ind P max_bytes a.random a.now a.main_call a.event_call w.db _ before
            (λ t drawn. after t _ drawn))

      parsed : (body : Option CreateBody) → P (create_body max_bytes a body w).db
      parsed none = before
      parsed (some body) = decoded body (Base64.decode body.ciphertext) (Base64.decode body.nonce)
