-- ===== src/Service/Create.antt =====
-- `Create` and `Retrieve` of internal/service/secret_service.go.
use disapyr_link.Common.{
  ℤ, pos, ltb_ℤ, ◌≤ℤ◌, ◌<ℤ◌, ◌≡◌, refl, ◌↔◌, ◌≢◌, inl, inr, true, arith, Bytes, length, Bool-cases,
  All,
}
use disapyr_link.Model.{CreateSecretInput, sentinel, too_large, Result, ok, err, ok-injective}
use disapyr_link.Repository.{Db, Call, completed, store, new_row, expiry, live, stamped}
use disapyr_link.Repository.Store.{fetch_and_delete-store}
use disapyr_link.Service.{token_bytes, generate_token, create, retrieve, persist, answer_token}
use disapyr_link.Encoding.Hex
use disapyr_link.Encoding.Hex.{
  AreBytes, IsHexDigit, length-encode, encode-IsHexDigit, encode-injective,
}

-- What `rand.Read` is documented to give.
abbrev pub IsRandom : Bytes → Type 0
IsRandom b = (length b ≡ token_bytes) × AreBytes b

-- The token of 16 random bytes has 32 characters, all lower-case hexadecimal digits.
pub generate_token-shape :
    (b : Bytes)
    → IsRandom b
    → (t : Bytes) × (generate_token (ok b) ≡ ok t) × (length t ≡ 32) × All IsHexDigit t
unfolding generate_token
generate_token-shape b (long, octets) =
    (Hex.encode b, refl, omega (arith, length-encode b), encode-IsHexDigit b octets)

-- Two buffers of random bytes that give one token are equal.
pub generate_token-injective :
    (a b : Bytes) → IsRandom a → IsRandom b → generate_token (ok a) ≡ generate_token (ok b) → a ≡ b
unfolding generate_token
generate_token-injective a b (_, ha) (_, hb) h = encode-injective a b ha hb (ok-injective h)

-- No error of the repository is one of the service's.
answer_token-not_too_large :
    (t : Bytes) (r : Db × Result (Unit {0})) → (answer_token t r).1 ≢ err (sentinel too_large)
answer_token-not_too_large t (db, ok _) h = cc
answer_token-not_too_large t (db, err e) h = cc

persist-not_too_large :
    (now : ℤ) (c c' : Call) (db : Db) (input : CreateSecretInput) (t : Result Bytes)
    → (persist now c c' db input t).1 ≢ err (sentinel too_large)
persist-not_too_large now c c' db input (ok t) h = answer_token-not_too_large t _ h
persist-not_too_large now c c' db input (err e) h = cc

-- `Create` answers that the secret is too large exactly when its ciphertext is longer than the limit,
-- and the tables are then as they were.
pub create-too_large_iff :
    (max_bytes : ℤ) (random : Result Bytes) (now : ℤ) (c c' : Call) (db : Db)
    (input : CreateSecretInput)
    → ((create max_bytes random now c c' db input).1 ≡ err (sentinel too_large)) ↔ (
        (max_bytes <ℤ pos (length input.ciphertext))
        × ((create max_bytes random now c c' db input).0 ≡ db))
unfolding create
create-too_large_iff max_bytes random now c c' db input =
    elim (Bool-cases (ltb_ℤ max_bytes (pos (length input.ciphertext)))) [
      | inl e ↦ rw e ((λ _. (ground arith, refl)), (λ _. refl))
      | inr e ↦ rw e (
        (λ h. absurd (persist-not_too_large now c c' db input (generate_token random) h)),
        (λ h. absurd (ground arith)),
      )
    ]

answer_token-ok :
    (t : Bytes) (r : Db × Result (Unit {0})) {u : Bytes}
    → (answer_token t r).1 ≡ ok u
    → (r.1 ≡ ok tt) × (t ≡ u) × ((answer_token t r).0 ≡ r.0)
answer_token-ok t (db, ok tt) h = (refl, ok-injective h, refl)
answer_token-ok t (db, err e) h = cc

-- A creation that succeeds has stored the input under the encoding of the random bytes, and its
-- ciphertext is within the limit.
pub create-ok :
    (max_bytes : ℤ) (b : Bytes) (now : ℤ) (c c' : Call) (db : Db) (input : CreateSecretInput)
    {t : Bytes}
    → (create max_bytes (ok b) now c c' db input).1 ≡ ok t
    → (pos (length input.ciphertext) ≤ℤ max_bytes)
      × (t ≡ Hex.encode b)
      × ((store now c c' db t input).1 ≡ ok tt)
      × ((create max_bytes (ok b) now c c' db input).0 ≡ (store now c c' db t input).0)
unfolding create
create-ok max_bytes b now c c' db input {t} h =
    elim (Bool-cases (ltb_ℤ max_bytes (pos (length input.ciphertext)))) [
      | inl e ↦ absurd (let q = rw e at h in cc)
      | inr e ↦
          let token = Hex.encode b in
          let (stored, named, kept) =
            answer_token-ok token (store now c c' db token input) (rw e at h) in
          rw (e, ← named) (ground arith, refl, stored, kept)
    ]

-- What was created is retrieved as it was given, as long as it has not expired, and the table of
-- secrets is then what it was before.
pub retrieve-create :
    (max_bytes : ℤ) (b : Bytes) (now : ℤ) (c c' d d' : Call) (db : Db) (input : CreateSecretInput)
    {t : Bytes}
    → (create max_bytes (ok b) now c c' db input).1 ≡ ok t
    → d.verdict ≡ completed
    → live d.now (stamped c (expiry now input.expires_in)) ≡ true
    → ((retrieve d d' (create max_bytes (ok b) now c c' db input).0 t).1
        ≡ ok (new_row now c t input))
      × ((retrieve d d' (create max_bytes (ok b) now c c' db input).0 t).0.secrets ≡ db.secrets)
unfolding retrieve
retrieve-create max_bytes b now c c' d d' db input {t} h done alive =
    let (_, _, stored, kept) = create-ok max_bytes b now c c' db input h in
    rw kept (fetch_and_delete-store now c c' d d' db t input stored done alive)
