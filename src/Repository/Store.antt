-- ===== src/Repository/Store.antt =====
-- `Store` of internal/repository/secret_repo.go, and its round trip with `FetchAndDelete`.
use disapyr_link.Common.{
  ℕ, ◌*◌, ◌≤◌, ◌<◌, ℤ, pos, ◌+ℤ◌, ◌*ℤ◌, ◌<ℤ◌, ◌≤ℤ◌, wrap64, ◌≡◌, refl, ◌∙◌, ◌↔◌, ◌⊎◌, inl, inr,
  Bool, true, false, not, ◌||◌, List, [], ◌∷◌, ◌++◌, ◌==◌, append-nil, arith, Bytes, same,
  same_refl, keep, any, Bool-cases, none, some,
}
use disapyr_link.Model.{Secret, CreateSecretInput, Result, ok, err}
use disapyr_link.Repository.{
  Db, Call, completed, stored, new_row, insert_row, store, expiry, second, stamped, live,
  fetch_and_delete, fetchable,
}
use disapyr_link.Repository.Rows.{keep-append, keep-none, keep-not}
use disapyr_link.Repository.Fetch.{
  record_event-secrets, settle_ind, settle-ok, fetch-of_row, fetch-completed,
}

-- The secret of a positive number of seconds below 2^63 / 10^9 expires that many seconds later.
pub expiry_lem :
    (now : ℤ) (n : ℕ)
    → 0 < n
    → n ≤ 9223372036
    → expiry now (pos n) ≡ some (now +ℤ pos (n * 1000000000))
unfolding expiry wrap64 ◌*ℤ◌
expiry_lem now n h k = ground arith

-- The expiry of a secret that is asked to last from 9223372037 to 18446744073 seconds, which is 292 to 584
-- years, wraps around and lies before the time at which it is stored.
pub expiry_wrapped :
    (now : ℤ) (n : ℕ)
    → 9223372037 ≤ n
    → n ≤ 18446744073
    → (t : ℤ) × (expiry now (pos n) ≡ some t) × (t <ℤ now)
unfolding expiry wrap64 ◌*ℤ◌ ◌+ℤ◌
expiry_wrapped now n h k = (now +ℤ wrap64 (pos n *ℤ second), ground arith, ground arith)

-- Zero and negative numbers mean that the secret never expires.
pub expiry-none_iff : (now n : ℤ) → (expiry now n ≡ none) ↔ (n ≤ℤ pos 0)
unfolding expiry
expiry-none_iff now n = ground arith

-- The row of `s` clashes with one of the table: an equal token or id.
abbrev pub clashes : Secret → Secret → Bool
clashes s r = same r.token s.token || r.id == s.id

stored-secrets : (c : Call) (r : Db × Result (Unit {0})) → (stored c r).0.secrets ≡ r.0.secrets
stored-secrets c (db, ok _) = record_event-secrets c db _ _
stored-secrets c (db, err e) = refl

stored-ok :
    (c : Call) (r : Db × Result (Unit {0})) {u : Unit {0}} → (stored c r).1 ≡ ok u → r.1 ≡ ok u
stored-ok c (db, ok _) h = h
stored-ok c (db, err e) h = cc

insert_row-ok :
    (c : Call) (db : Db) (s : Secret) {u : Unit {0}}
    → (insert_row c db s).1 ≡ ok u
    → (any (clashes s) db.secrets ≡ false) × ((insert_row c db s).0.secrets ≡ db.secrets ++ s ∷ [])
unfolding insert_row
insert_row-ok c db s h = elim (Bool-cases (any (clashes s) db.secrets)) [
  | inl clash ↦ absurd (let e = rw clash at h in cc)
  | inr free ↦ rw free (refl, refl)
]

insert_row-secrets :
    (c : Call) (db : Db) (s : Secret)
    → ((insert_row c db s).0.secrets ≡ db.secrets)
      ⊎ ((any (clashes s) db.secrets ≡ false)
          × ((insert_row c db s).0.secrets ≡ db.secrets ++ s ∷ []))
unfolding insert_row
insert_row-secrets c db s = elim (Bool-cases (any (clashes s) db.secrets)) [
  | inl clash ↦ inl (rw clash)
  | inr free ↦ inr (free, rw free)
]

-- A store that succeeds has appended the row, and neither its token nor its id was in use.
pub store-ok :
    (now : ℤ) (c c' : Call) (db : Db) (t : Bytes) (input : CreateSecretInput) {u : Unit {0}}
    → (store now c c' db t input).1 ≡ ok u
    → (c.verdict ≡ completed)
      × (any (clashes (new_row now c t input)) db.secrets ≡ false)
      × ((store now c c' db t input).0.secrets ≡ db.secrets ++ new_row now c t input ∷ [])
unfolding store
store-ok now c c' db t input h =
    let row = new_row now c t input in
    let (done, inserted) = settle-ok c.verdict db (insert_row c db row) (stored-ok c' _ h) in
    let (free, appended) = insert_row-ok c db row inserted in
    (done, free, rw (stored-secrets, done) appended)

-- Whatever the database answers, a store leaves the table alone or appends the row.
pub store-secrets :
    (now : ℤ) (c c' : Call) (db : Db) (t : Bytes) (input : CreateSecretInput)
    → ((store now c c' db t input).0.secrets ≡ db.secrets)
      ⊎ ((any (clashes (new_row now c t input)) db.secrets ≡ false)
          × ((store now c c' db t input).0.secrets ≡ db.secrets ++ new_row now c t input ∷ []))
unfolding store
store-secrets now c c' db t input =
    let row = new_row now c t input in
    rw stored-secrets (
      settle_ind
        (λ d.
          (d.secrets ≡ db.secrets)
          ⊎ ((any (clashes row) db.secrets ≡ false) × (d.secrets ≡ db.secrets ++ row ∷ [])))
        c.verdict db (insert_row c db row) (inl refl) (insert_row-secrets c db row))

pub any-fetchable_free :
    (now : ℤ) (s : Secret) (rs : List Secret)
    → any (clashes s) rs ≡ false
    → any (fetchable now s.token) rs ≡ false
any-fetchable_free now s [] h = refl
any-fetchable_free now s (r ∷ rs) h = ground (arith, any-fetchable_free now s rs)

module _ (now : ℤ) (s : Secret) (rs : List Secret) (free : any (clashes s) rs ≡ false)
    (alive : live now s.expires_at ≡ true) where
  keep-fetchable_new : keep (fetchable now s.token) (rs ++ s ∷ []) ≡ s ∷ []
  keep-fetchable_new =
      rw (keep-append, keep-none (fetchable now s.token) rs (any-fetchable_free now s rs free))
        (ground (arith, same_refl s.token))

  keep-not_new : keep (λ r. not (fetchable now s.token r)) (rs ++ s ∷ []) ≡ rs
  keep-not_new =
      rw (keep-append, keep-not (fetchable now s.token) rs (any-fetchable_free now s rs free))
        (ground (arith, same_refl s.token, append-nil rs))

-- A secret that was stored is fetched as it was given, as long as it has not expired by the clock
-- of the database; and the table is then what it was before the store.
pub fetch_and_delete-store :
    (now : ℤ) (c c' d d' : Call) (db : Db) (t : Bytes) (input : CreateSecretInput) {u : Unit {0}}
    → (store now c c' db t input).1 ≡ ok u
    → d.verdict ≡ completed
    → live d.now (stamped c (expiry now input.expires_in)) ≡ true
    → ((fetch_and_delete d d' (store now c c' db t input).0 t).1 ≡ ok (new_row now c t input))
      × ((fetch_and_delete d d' (store now c c' db t input).0 t).0.secrets ≡ db.secrets)
fetch_and_delete-store now c c' d d' db t input h done alive =
    let row = new_row now c t input in
    let (_, free, appended) = store-ok now c c' db t input h in
    let db' = (store now c c' db t input).0 in
    (
      fetch-of_row d d' db' t done
          (rw (appended, keep-fetchable_new d.now row db.secrets free alive)),
      fetch-completed d d' db' t done ∙ rw appended (keep-not_new d.now row db.secrets free alive),
    )
