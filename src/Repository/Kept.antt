-- ===== src/Repository/Kept.antt =====
-- What the operations of internal/repository/secret_repo.go keep of the tables.
use disapyr_link.Common.{
  true, ℕ, ℤ, ◌≡◌, refl, ◌∙◌, ◌≢◌, inl, inr, not, List, [], ◌∷◌, ◌++◌, arith, Bytes, same_iff, sym,
  subst,
}
use disapyr_link.Model.{Secret, CreateSecretInput, Result, ok, err}
use disapyr_link.Repository.{
  Db, Call, settle, insert_row, insert_event, record_event, store, new_row, fetchable,
  delete_returning, fetch_and_delete, stored, fetched, cleanup_expired, expired, live,
}
use disapyr_link.Repository.Cleanup.{cleanup-secrets, expired-not-live}
use disapyr_link.Repository.Rows.{In, keep-In}
use disapyr_link.Repository.Fetch.{settle_ind, fetch-secrets}
use disapyr_link.Repository.Store.{store-secrets}

record_event-app_logs :
    (c : Call) (db : Db) (t : Bytes) (n : ℕ) → (record_event c db t n).app_logs ≡ db.app_logs
unfolding record_event insert_event
record_event-app_logs c db t n = ground arith

pub store-app_logs :
    (now : ℤ) (c c' : Call) (db : Db) (t : Bytes) (input : CreateSecretInput)
    → (store now c c' db t input).0.app_logs ≡ db.app_logs
unfolding store insert_row
store-app_logs now c c' db t input =
    let row = new_row now c t input in
    behind (settle c.verdict db (insert_row c db row))
    ∙ settle_ind (λ d. d.app_logs ≡ db.app_logs) c.verdict db (insert_row c db row) refl
        (ground arith)
  where
    behind : (q : Db × Result (Unit {0})) → (stored c' q).0.app_logs ≡ q.0.app_logs
    behind (d, ok u) = record_event-app_logs c' d _ _
    behind (d, err e) = refl

pub fetch_and_delete-app_logs :
    (c c' : Call) (db : Db) (t : Bytes) → (fetch_and_delete c c' db t).0.app_logs ≡ db.app_logs
unfolding fetch_and_delete delete_returning
fetch_and_delete-app_logs c c' db t =
    behind (settle c.verdict db (delete_returning c db t))
    ∙ settle_ind (λ d. d.app_logs ≡ db.app_logs) c.verdict db (delete_returning c db t) refl refl
  where
    behind : (q : Db × Result Secret) → (fetched c' q).0.app_logs ≡ q.0.app_logs
    behind (d, ok s) = record_event-app_logs c' d _ _
    behind (d, err e) = ground arith

append-In : (x : Secret) (xs ys : List Secret) → In x xs → In x (xs ++ ys)
append-In x [] ys h = absurd h
append-In x (y ∷ xs) ys (inl e) = inl e
append-In x (y ∷ xs) ys (inr h) = inr (append-In x xs ys h)

pub store-In :
    (x : Secret) (now : ℤ) (c c' : Call) (db : Db) (t : Bytes) (input : CreateSecretInput)
    → In x db.secrets
    → In x (store now c c' db t input).0.secrets
store-In x now c c' db t input h = elim (store-secrets now c c' db t input) [
  | inl e ↦ subst (In x) (sym e) h
  | inr (_, e) ↦ subst (In x) (sym e) (append-In x db.secrets _ h)
]

pub fetch_and_delete-In :
    (x : Secret) (c c' : Call) (db : Db) (t : Bytes)
    → t ≢ x.token
    → In x db.secrets
    → In x (fetch_and_delete c c' db t).0.secrets
fetch_and_delete-In x c c' db t other h = elim (fetch-secrets c c' db t) [
  | inl e ↦ subst (In x) (sym e) h
  | inr e ↦
      subst (In x) (sym e)
        (keep-In (λ r. not (fetchable c.now t r)) db.secrets h (ground (arith, same_iff x.token t)))
]

pub cleanup_expired-In :
    (x : Secret) (c c' : Call) (db : Db)
    → live c.now x.expires_at ≡ true
    → In x db.secrets
    → In x (cleanup_expired c c' db).0.secrets
cleanup_expired-In x c c' db alive h = elim (cleanup-secrets c c' db) [
  | inl e ↦ subst (In x) (sym e) h
  | inr e ↦
      subst (In x) (sym e) (
        keep-In (λ r. not (expired c.now r)) db.secrets h
          (rw (expired-not-live c.now x alive) refl))
]
