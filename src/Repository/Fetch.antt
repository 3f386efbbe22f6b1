-- ===== src/Repository/Fetch.antt =====
-- `FetchAndDelete` of internal/repository/secret_repo.go.
use disapyr_link.Common.{
  ℕ, ◌+◌, ◌≤◌, ◌≡◌, refl, ap, ◌↔◌, ◌≢◌, ◌⊎◌, inl, inr, Bool, true, false, not, List, [], ◌∷◌, arith,
  Bytes, same_iff, keep, length, any, Bool-cases,
}
use disapyr_link.Model.{Secret, sentinel, not_found, errors_is, Result, ok, err}
use disapyr_link.Repository.{
  Db, Call, Verdict, completed, refused, lost, settle, fetchable, live, scan_row, delete_returning,
  record_event, insert_event, fetch_and_delete, fetched,
}
use disapyr_link.Repository.Rows.{
  In, bears, rows_with, rows_with-keep, rows_with-fetchable, scan_row-keep, keep-keep_disjoint,
}

-- The events are another table.
pub record_event-secrets :
    (c : Call) (db : Db) (t : Bytes) (n : ℕ) → (record_event c db t n).secrets ≡ db.secrets
unfolding record_event insert_event
record_event-secrets c db t n = ground arith

fetched-secrets : (c : Call) (r : Db × Result Secret) → (fetched c r).0.secrets ≡ r.0.secrets
fetched-secrets c (db, ok s) = record_event-secrets c db _ _
fetched-secrets c (db, err e) = ground arith

-- What holds before a statement and after it holds whatever the verdict.
pub settle_ind {ℓ κ} :
    {A : Type ℓ} (P : Db → Type κ) (v : Verdict) (db : Db) (r : Db × Result A)
    → P db
    → P r.0
    → P (settle v db r).0
settle_ind P completed db r before after = after
settle_ind P (refused text) db r before after = before
settle_ind P (lost text) db (_, _) before after = after

settle-secrets :
    (c : Call) (db : Db) (t : Bytes)
    → ((settle c.verdict db (delete_returning c db t)).0.secrets ≡ db.secrets)
      ⊎ ((settle c.verdict db (delete_returning c db t)).0.secrets
          ≡ keep (λ r. not (fetchable c.now t r)) db.secrets)
unfolding delete_returning
settle-secrets c db t =
    settle_ind
      (λ d.
        (d.secrets ≡ db.secrets) ⊎ (d.secrets ≡ keep (λ r. not (fetchable c.now t r)) db.secrets))
      c.verdict db (delete_returning c db t) (inl refl) (inr refl)

-- A fetch leaves the table alone, or removes the rows that can be fetched.
pub fetch-secrets :
    (c c' : Call) (db : Db) (t : Bytes)
    → ((fetch_and_delete c c' db t).0.secrets ≡ db.secrets)
      ⊎ ((fetch_and_delete c c' db t).0.secrets ≡ keep (λ r. not (fetchable c.now t r)) db.secrets)
unfolding fetch_and_delete
fetch-secrets c c' db t = rw fetched-secrets (settle-secrets c db t)

fetched-ok : (c : Call) (r : Db × Result Secret) {s : Secret} → (fetched c r).1 ≡ ok s → r.1 ≡ ok s
fetched-ok c (db, ok s) h = h
fetched-ok c (db, err e) h = ground arith

pub settle-ok {ℓ} :
    {A : Type ℓ} (v : Verdict) (db : Db) (r : Db × Result A) {a : A}
    → (settle v db r).1 ≡ ok a
    → (v ≡ completed) × (r.1 ≡ ok a)
settle-ok completed db r h = (refl, h)
settle-ok (refused text) db r h = cc
settle-ok (lost text) db (_, _) h = cc

pub fetch-ok_completed :
    (c c' : Call) (db : Db) (t : Bytes) {s : Secret}
    → (fetch_and_delete c c' db t).1 ≡ ok s
    → (c.verdict ≡ completed) × (scan_row (keep (fetchable c.now t) db.secrets) ≡ ok s)
unfolding fetch_and_delete delete_returning
fetch-ok_completed c c' db t h = settle-ok c.verdict db _ (fetched-ok c' _ h)

pub fetch-of_row :
    (c c' : Call) (db : Db) (t : Bytes) {s : Secret}
    → c.verdict ≡ completed
    → scan_row (keep (fetchable c.now t) db.secrets) ≡ ok s
    → (fetch_and_delete c c' db t).1 ≡ ok s
unfolding fetch_and_delete delete_returning
fetch-of_row c c' db t done first = rw (done, first)

pub fetch-completed :
    (c c' : Call) (db : Db) (t : Bytes)
    → c.verdict ≡ completed
    → (fetch_and_delete c c' db t).0.secrets ≡ keep (λ r. not (fetchable c.now t r)) db.secrets
unfolding fetch_and_delete delete_returning
fetch-completed c c' db t e = rw (fetched-secrets, e)

-- Whatever the database answers, a fetch that succeeds returns a row of the table that bears the
-- token and has not expired by the database's clock, and it has removed from the table exactly the
-- unexpired rows that bear the token.
pub fetch_and_delete_sound :
    (c c' : Call) (db : Db) (t : Bytes) {s : Secret}
    → (fetch_and_delete c c' db t).1 ≡ ok s
    → In s db.secrets
      × (s.token ≡ t)
      × (live c.now s.expires_at ≡ true)
      × ((fetch_and_delete c c' db t).0.secrets ≡ keep (λ r. not (fetchable c.now t r)) db.secrets)
fetch_and_delete_sound c c' db t {s} h =
    let (done, first) = fetch-ok_completed c c' db t h in
    let (within, passed) = scan_row-keep (fetchable c.now t) db.secrets first in
    (within, ground (arith, same_iff s.token t), ground arith, fetch-completed c c' db t done)

-- No token is borne by two rows.
abbrev pub HasUniqueTokens : List Secret → Type 0
HasUniqueTokens rs = (t : Bytes) → rows_with t rs ≤ 1

scan_row-keep_pos :
    (p : Secret → Bool) (rs : List Secret) {s : Secret}
    → scan_row (keep p rs) ≡ ok s
    → 1 ≤ length (keep p rs)
scan_row-keep_pos p rs h = go (keep p rs) h
  where
    go : (ks : List Secret) {s : Secret} → scan_row ks ≡ ok s → 1 ≤ length ks
    go [] h = cc
    go (k ∷ ks) h = omega arith

-- A fetch that succeeds removes at least one row that bears the token.
pub rows_with-fetch_ok :
    (c c' : Call) (db : Db) (t : Bytes) {s : Secret}
    → (fetch_and_delete c c' db t).1 ≡ ok s
    → rows_with t (fetch_and_delete c c' db t).0.secrets + 1 ≤ rows_with t db.secrets
rows_with-fetch_ok c c' db t h =
    let (done, first) = fetch-ok_completed c c' db t h in
    rw (fetch-completed c c' db t done) (
      omega (
        arith,
        rows_with-keep t (fetchable c.now t) db.secrets,
        rows_with-fetchable c.now t db.secrets,
        scan_row-keep_pos (fetchable c.now t) db.secrets first,
      ))

-- No fetch adds a row that bears a token.
pub rows_with-fetch :
    (c c' : Call) (db : Db) (t u : Bytes)
    → rows_with u (fetch_and_delete c c' db t).0.secrets ≤ rows_with u db.secrets
rows_with-fetch c c' db t u = elim (fetch-secrets c c' db t) [
  | inl e ↦ rw e (omega arith)
  | inr e ↦ rw e (omega (arith, rows_with-keep u (fetchable c.now t) db.secrets))
]

-- A secret can be read once: in a table with unique tokens, after a fetch that succeeds no fetch of
-- the same token succeeds, at whatever time and whatever the database answers.
pub fetch_and_delete-once :
    (c c' d d' : Call) (db : Db) (t : Bytes) {s : Secret}
    → HasUniqueTokens db.secrets
    → (fetch_and_delete c c' db t).1 ≡ ok s
    → (s' : Secret) → (fetch_and_delete d d' (fetch_and_delete c c' db t).0 t).1 ≢ ok s'
fetch_and_delete-once c c' d d' db t unique h s' again = omega (
  arith,
  unique t,
  rows_with-fetch_ok c c' db t h,
  rows_with-fetch_ok d d' (fetch_and_delete c c' db t).0 t again,
)

fetched-scan_row_iff :
    (c : Call) (db : Db) (p : Secret → Bool) (rs : List Secret)
    → ((fetched c (db, scan_row (keep p rs))).1 ≡ err (sentinel not_found)) ↔ (any p rs ≡ false)
unfolding errors_is
fetched-scan_row_iff c db p [] = (λ _. refl, λ _. refl)
fetched-scan_row_iff c db p (r ∷ rs) = elim (Bool-cases (p r)) [
  | inl e ↦ rw e (λ h. cc, λ h. cc)
  | inr e ↦ rw e (fetched-scan_row_iff c db p rs)
]

-- A fetch answers that the secret is not found exactly when the statement was carried out and the
-- table has no unexpired row with the token; a failure of the database is never reported so.
pub fetch_and_delete-not_found_iff :
    (c c' : Call) (db : Db) (t : Bytes)
    → ((fetch_and_delete c c' db t).1 ≡ err (sentinel not_found))
      ↔ ((c.verdict ≡ completed) × (any (fetchable c.now t) db.secrets ≡ false))
unfolding fetch_and_delete delete_returning errors_is
fetch_and_delete-not_found_iff c c' db t = go c.verdict
  where
    go :
        (v : Verdict)
        → ((fetched c' (settle v db (delete_returning c db t))).1 ≡ err (sentinel not_found))
          ↔ ((v ≡ completed) × (any (fetchable c.now t) db.secrets ≡ false))
    go completed =
        let (to, from) =
          fetched-scan_row_iff c'
            (record db { secrets = keep (λ r. not (fetchable c.now t r)) db.secrets })
            (fetchable c.now t) db.secrets in
        (λ h. (refl, to h), λ h. from h.1)
    go (refused text) = ground arith
    go (lost text) = ground arith

-- A fetch leaves every row of the other tokens in its place.
pub fetch_and_delete-others :
    (c c' : Call) (db : Db) (t : Bytes)
    → keep (λ r. not (bears t r)) (fetch_and_delete c c' db t).0.secrets
      ≡ keep (λ r. not (bears t r)) db.secrets
fetch_and_delete-others c c' db t = elim (fetch-secrets c c' db t) [
  | inl e ↦ rw e
  | inr e ↦ rw e (
      keep-keep_disjoint (λ r. not (bears t r)) (λ r. not (fetchable c.now t r)) db.secrets
        (λ r h. ground arith))
]

fetched-cong : (c : Call) (q r : Db × Result Secret) → q.1 ≡ r.1 → (fetched c q).1 ≡ (fetched c r).1
fetched-cong c (a, ok s) (b, r) h = rw (← h)
fetched-cong c (a, err e) (b, r) h = rw (← h) (ground arith)

settle-cong {ℓ} :
    {A : Type ℓ} (v : Verdict) (a b : Db) (q r : Db × Result A)
    → q.1 ≡ r.1
    → (settle v a q).1 ≡ (settle v b r).1
settle-cong completed a b q r h = h
settle-cong (refused text) a b q r h = refl
settle-cong (lost text) a b (_, _) (_, _) h = refl

-- The answer of a fetch depends only on the rows that it can return.
pub fetch-cong :
    (c c' : Call) (t : Bytes) (a b : Db)
    → keep (fetchable c.now t) a.secrets ≡ keep (fetchable c.now t) b.secrets
    → (fetch_and_delete c c' a t).1 ≡ (fetch_and_delete c c' b t).1
unfolding fetch_and_delete delete_returning
fetch-cong c c' t a b h =
    fetched-cong c' _ _
      (settle-cong c.verdict a b (delete_returning c a t) (delete_returning c b t) (ap scan_row h))
