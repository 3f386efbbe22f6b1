-- ===== src/Repository/Cleanup.antt =====
-- `CleanupExpired` of internal/repository/secret_repo.go.
use disapyr_link.Common.{
  ℕ, ◌+◌, ◌≤◌, ℤ, ◌≤ℤ◌, ◌≡◌, refl, ◌⊎◌, inl, inr, true, false, not, arith, Bytes, keep, length, any,
  Bool-cases, ltb,
}
use disapyr_link.Model.{Secret, Result, ok, err, ok-injective}
use disapyr_link.Repository.{
  Db, Call, delete_expired, cleaned, cleanup_expired, expired, live, fetchable, fetch_and_delete,
}
use disapyr_link.Repository.Rows.{
  rows_with, rows_with-keep, length-keep, keep-keep_disjoint, any-keep-not,
}
use disapyr_link.Repository.Fetch.{record_event-secrets, settle_ind, settle-ok, fetch-cong}

cleaned-secrets : (c : Call) (r : Db × Result ℕ) → (cleaned c r).0.secrets ≡ r.0.secrets
cleaned-secrets c (db, ok n) = elim (Bool-cases (ltb 0 n)) [
  | inl e ↦ rw e (record_event-secrets c db _ _)
  | inr e ↦ rw e
]
cleaned-secrets c (db, err e) = refl

cleaned-ok : (c : Call) (r : Db × Result ℕ) {n : ℕ} → (cleaned c r).1 ≡ ok n → r.1 ≡ ok n
cleaned-ok c (db, ok n) h = h
cleaned-ok c (db, err e) h = cc

-- A cleanup leaves the table alone, or removes the expired rows.
pub cleanup-secrets :
    (c c' : Call) (db : Db)
    → ((cleanup_expired c c' db).0.secrets ≡ db.secrets)
      ⊎ ((cleanup_expired c c' db).0.secrets ≡ keep (λ r. not (expired c.now r)) db.secrets)
unfolding cleanup_expired delete_expired
cleanup-secrets c c' db = rw cleaned-secrets (
    settle_ind
      (λ d. (d.secrets ≡ db.secrets) ⊎ (d.secrets ≡ keep (λ r. not (expired c.now r)) db.secrets))
      c.verdict db (delete_expired c db) (inl refl) (inr refl))

pub rows_with-cleanup :
    (c c' : Call) (db : Db) (t : Bytes)
    → rows_with t (cleanup_expired c c' db).0.secrets ≤ rows_with t db.secrets
rows_with-cleanup c c' db t = elim (cleanup-secrets c c' db) [
  | inl e ↦ rw e (omega arith)
  | inr e ↦ rw e (omega (arith, rows_with-keep t (expired c.now) db.secrets))
]

-- A row is expired for the cleanup only if no fetch at that time would return it.
pub expired-not-live : (now : ℤ) (s : Secret) → live now s.expires_at ≡ true → expired now s ≡ false
expired-not-live now s h = ground arith

fetchable-not-expired :
    (now later : ℤ) (t : Bytes) (s : Secret)
    → now ≤ℤ later
    → fetchable later t s ≡ true
    → not (expired now s) ≡ true
fetchable-not-expired now later t s h e = ground arith

-- Whatever the database answers, a cleanup removes no row that is unexpired by its clock, of any
-- token.
pub cleanup_expired-live :
    (c c' : Call) (db : Db)
    → keep (λ r. live c.now r.expires_at) (cleanup_expired c c' db).0.secrets
      ≡ keep (λ r. live c.now r.expires_at) db.secrets
cleanup_expired-live c c' db = elim (cleanup-secrets c c' db) [
  | inl e ↦ rw e
  | inr e ↦ rw e (
      keep-keep_disjoint (λ r. live c.now r.expires_at) (λ r. not (expired c.now r)) db.secrets
        (λ r h. rw (expired-not-live c.now r h)))
]

-- A cleanup that succeeds reports how many rows it removed, and leaves none that has expired.
pub cleanup_expired-ok :
    (c c' : Call) (db : Db) {n : ℕ}
    → (cleanup_expired c c' db).1 ≡ ok n
    → (length (cleanup_expired c c' db).0.secrets + n ≡ length db.secrets)
      × (any (expired c.now) (cleanup_expired c c' db).0.secrets ≡ false)
unfolding cleanup_expired delete_expired
cleanup_expired-ok c c' db {n} h =
    let (done, counted) = settle-ok c.verdict db (delete_expired c db) (cleaned-ok c' _ h) in
    let number : length (keep (expired c.now) db.secrets) ≡ n = ok-injective counted in
    rw (cleaned-secrets, done)
      (
        omega (arith, length-keep (expired c.now) db.secrets),
        any-keep-not (expired c.now) db.secrets,
      )

-- Cleanups are not seen from outside: a fetch at a later time gives the same answer with and without
-- a cleanup before it.
pub fetch_and_delete-cleanup :
    (c c' d d' : Call) (db : Db) (t : Bytes)
    → c.now ≤ℤ d.now
    → (fetch_and_delete d d' (cleanup_expired c c' db).0 t).1 ≡ (fetch_and_delete d d' db t).1
fetch_and_delete-cleanup c c' d d' db t h = elim (cleanup-secrets c c' db) [
  | inl e ↦ fetch-cong d d' t (cleanup_expired c c' db).0 db (rw e)
  | inr e ↦ fetch-cong d d' t (cleanup_expired c c' db).0 db (
      rw e (
        keep-keep_disjoint (fetchable d.now t) (λ r. not (expired c.now r)) db.secrets
          (λ r. fetchable-not-expired c.now d.now t r h)))
]
