-- ===== src/Service/Kept.antt =====
-- What `Create` of internal/service/secret_service.go does to the tables.
use disapyr_link.Common.{ℤ, pos, ltb_ℤ, ◌≡◌, refl, Bytes, length, sym, subst, if_ind}
use disapyr_link.Model.{CreateSecretInput, Result, ok, err}
use disapyr_link.Repository.{Db, Call, store}
use disapyr_link.Service.{create, persist, answer_token, generate_token}

answer_token-db : (t : Bytes) (q : Db × Result (Unit {0})) → (answer_token t q).0 ≡ q.0
answer_token-db t (db, ok u) = refl
answer_token-db t (db, err e) = refl

-- What holds of the tables before a creation and after the insertion of what it draws holds after the
-- creation.
module _ {ℓ} (P : Db → Type ℓ) where
  pub create_ind :
      (max_bytes : ℤ) (random : Result Bytes) (now : ℤ) (c c' : Call) (db : Db)
      (input : CreateSecretInput)
      → P db
      → ((t : Bytes) → generate_token random ≡ ok t → P (store now c c' db t input).0)
      → P (create max_bytes random now c c' db input).0
  unfolding create
  create_ind max_bytes random now c c' db input before after =
      if_ind (λ (q : Db × Result Bytes). P q.0) (ltb_ℤ max_bytes (pos (length input.ciphertext)))
        (λ h. before) (λ h. persisted (generate_token random) refl)
    where
      persisted : (t : Result Bytes) → generate_token random ≡ t → P (persist now c c' db input t).0
      persisted (ok t) e = subst P (sym (answer_token-db t (store now c c' db t input))) (after t e)
      persisted (err x) e = before
