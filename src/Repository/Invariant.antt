-- ===== src/Repository/Invariant.antt =====
-- The invariant of the tables of internal/repository/secret_repo.go: tokens are unique, and every
-- event is one of the three kinds.
use disapyr_link.Common.{
  ℕ, ◌≤◌, ℤ, ◌≡◌, refl, inl, inr, true, false, List, [], ◌∷◌, ◌++◌, arith, Bytes, same, same_iff,
  any, Bool-cases, ltb, All, All-append,
}
use disapyr_link.Model.{Secret, CreateSecretInput, no_rows, errors_is, Result, ok, err}
use disapyr_link.Repository.{
  Db, Call, settle, record_event, insert_event, known_event, delete_expired, cleaned,
  cleanup_expired, fetch_and_delete, store, stored, insert_row, new_row, fetched, delete_returning,
}
use disapyr_link.Repository.Rows.{bears, rows_with, rows_with-append}
use disapyr_link.Repository.Fetch.{HasUniqueTokens, rows_with-fetch, settle_ind}
use disapyr_link.Repository.Store.{store-secrets, clashes}
use disapyr_link.Repository.Cleanup.{rows_with-cleanup}

-- The UNIQUE and CHECK constraints of the migrations, as facts about the tables.
pub record IsValid (db : Db) : Type 0 where
  pub unique : HasUniqueTokens db.secrets
  pub known : All (λ e. known_event e.event_type ≡ true) db.events

rows_with-free :
    (s : Secret) (rs : List Secret) → any (clashes s) rs ≡ false → rows_with s.token rs ≡ 0
unfolding rows_with
rows_with-free s [] h = refl
rows_with-free s (r ∷ rs) h = ground (arith, rows_with-free s rs)

pub rows_with-one : (t : Bytes) (s : Secret) → rows_with t (s ∷ []) ≤ 1
unfolding rows_with
rows_with-one t s = ground arith

pub rows_with-other : (t : Bytes) (s : Secret) → bears t s ≡ false → rows_with t (s ∷ []) ≡ 0
unfolding rows_with
rows_with-other t s h = ground arith

HasUniqueTokens-append :
    (rs : List Secret) (s : Secret)
    → HasUniqueTokens rs
    → any (clashes s) rs ≡ false
    → HasUniqueTokens (rs ++ s ∷ [])
HasUniqueTokens-append rs s h free t = elim (Bool-cases (bears t s)) [
  | inl e ↦
      let same_token : s.token ≡ t = (same_iff s.token t).0 e in
      let none_before : rows_with t rs ≡ 0 = rw (← same_token) (rows_with-free s rs free) in
      omega (arith, rows_with-append t rs (s ∷ []), rows_with-one t s)
  | inr e ↦ omega (arith, rows_with-append t rs (s ∷ []), rows_with-other t s e, h t)
]

pub store-HasUniqueTokens :
    (now : ℤ) (c c' : Call) (db : Db) (t : Bytes) (input : CreateSecretInput)
    → HasUniqueTokens db.secrets
    → HasUniqueTokens (store now c c' db t input).0.secrets
store-HasUniqueTokens now c c' db t input h = elim (store-secrets now c c' db t input) [
  | inl e ↦ rw e h
  | inr (free, e) ↦ rw e (HasUniqueTokens-append db.secrets _ h free)
]

abbrev pub KnownEvents : Db → Type 0
KnownEvents db = All (λ e. known_event e.event_type ≡ true) db.events

pub record_event-KnownEvents :
    (c : Call) (db : Db) (kind : Bytes) (n : ℕ)
    → KnownEvents db
    → KnownEvents (record_event c db kind n)
unfolding record_event insert_event
record_event-KnownEvents c db kind n h =
    settle_ind KnownEvents c.verdict db (insert_event c db kind n) h
      (elim (Bool-cases (known_event kind)) [
        | inl e ↦ rw e (All-append _ db.events _ h (e, tt))
        | inr e ↦ rw e h
      ])

stored-KnownEvents :
    (c : Call) (r : Db × Result (Unit {0})) → KnownEvents r.0 → KnownEvents (stored c r).0
unfolding same
stored-KnownEvents c (db, ok _) h = record_event-KnownEvents c db _ _ h
stored-KnownEvents c (db, err e) h = h

fetched-KnownEvents :
    (c : Call) (r : Db × Result Secret) → KnownEvents r.0 → KnownEvents (fetched c r).0
fetched-KnownEvents c (db, ok s) h = record_event-KnownEvents c db _ _ h
fetched-KnownEvents c (db, err e) h = elim (Bool-cases (errors_is e no_rows)) [
  | inl q ↦ rw q h
  | inr q ↦ rw q h
]

cleaned-KnownEvents : (c : Call) (r : Db × Result ℕ) → KnownEvents r.0 → KnownEvents (cleaned c r).0
cleaned-KnownEvents c (db, ok n) h = elim (Bool-cases (ltb 0 n)) [
  | inl q ↦ rw q (record_event-KnownEvents c db _ _ h)
  | inr q ↦ rw q h
]
cleaned-KnownEvents c (db, err e) h = h

insert_row-events : (c : Call) (db : Db) (s : Secret) → (insert_row c db s).0.events ≡ db.events
unfolding insert_row
insert_row-events c db s = ground arith

-- Every operation keeps the tables valid, whatever the database answers to each statement: after it
-- no two rows bear one token, and every event is of a known kind.
pub store-IsValid :
    (now : ℤ) (c c' : Call) (db : Db) (t : Bytes) (input : CreateSecretInput)
    → IsValid db
    → IsValid (store now c c' db t input).0
unfolding store
store-IsValid now c c' db t input v = record {
  unique = store-HasUniqueTokens now c c' db t input v.unique;
  known = stored-KnownEvents c' _ (
      settle_ind KnownEvents c.verdict db (insert_row c db (new_row now c t input)) v.known
        (rw insert_row-events v.known));
}

pub fetch_and_delete-IsValid :
    (c c' : Call) (db : Db) (t : Bytes) → IsValid db → IsValid (fetch_and_delete c c' db t).0
unfolding fetch_and_delete delete_returning
fetch_and_delete-IsValid c c' db t v = record {
  unique = λ u. omega (arith, v.unique u, rows_with-fetch c c' db t u);
  known =
      fetched-KnownEvents c' _
        (settle_ind KnownEvents c.verdict db (delete_returning c db t) v.known v.known);
}

pub cleanup_expired-IsValid :
    (c c' : Call) (db : Db) → IsValid db → IsValid (cleanup_expired c c' db).0
unfolding cleanup_expired delete_expired
cleanup_expired-IsValid c c' db v = record {
  unique = λ u. omega (arith, v.unique u, rows_with-cleanup c c' db u);
  known =
      cleaned-KnownEvents c' (settle c.verdict db (delete_expired c db))
        (settle_ind KnownEvents c.verdict db (delete_expired c db) v.known v.known);
}
