-- ===== src/Repository/Ledger.antt =====
-- The event ledger of internal/repository/secret_repo.go against the table of secrets.
use disapyr_link.Common.{
  ℕ, ◌+◌, ◌≤◌, ◌≡◌, refl, ap, ◌∙◌, inl, inr, true, not, ◌||◌, List, [], ◌∷◌, ◌++◌, ◌==◌, arith,
  Bytes, same, keep, length, any, if◌then◌else◌, Bool-cases, ltb, codes, length-append, All,
}
use disapyr_link.Model.{Secret, external, errors_is, Result, err}
use disapyr_link.Repository.{
  Db, Event, Call, Verdict, completed, refused, lost, settle, record_event, insert_event,
  known_event, store, stored, insert_row, new_row, fetch_and_delete, fetched, delete_returning,
  fetchable, scan_row, cleanup_expired, cleaned, delete_expired, expired,
}
use disapyr_link.Repository.Rows.{rows_with-keep, rows_with-fetchable, length-keep}
use disapyr_link.Repository.Fetch.{record_event-secrets}
use disapyr_link.Repository.Invariant.{IsValid}
use disapyr_link.Repository.Trace.{Operation, put, take_out, sweep, apply, run, apply-IsValid}

-- The sum of the counts of the events of a kind.
unfoldable pub total : Bytes → List Event → ℕ
total kind [] = 0
total kind (e ∷ es) = (if same e.event_type kind then e.count else 0) + total kind es

total-append :
    (kind : Bytes) (es fs : List Event) → total kind (es ++ fs) ≡ total kind es + total kind fs
unfolding total
total-append kind [] fs = omega arith
total-append kind (e ∷ es) fs = omega (arith, total-append kind es fs)

insert_event-events :
    (c : Call) (db : Db) (u : Bytes) (n : ℕ)
    → known_event u ≡ true
    → (insert_event c db u n).0.events ≡ db.events ++ record { event_type = u; count = n } ∷ []
unfolding insert_event
insert_event-events c db u n known = rw known

pub total-record_event :
    (c : Call) (db : Db) (kind u : Bytes) (n : ℕ)
    → c.verdict ≡ completed
    → known_event u ≡ true
    → total kind (record_event c db u n).events
      ≡ total kind db.events + (if same u kind then n else 0)
unfolding record_event total
total-record_event c db kind u n done known =
    let event : Event = record { event_type = u; count = n } in
    let events =
      ap (λ v. (settle v db (insert_event c db u n)).0.events) done
      ∙ insert_event-events c db u n known in
    rw events (omega (arith, total-append kind db.events (event ∷ [])))

abbrev pub created : Bytes
created = codes "created"

abbrev pub retrieved : Bytes
retrieved = codes "retrieved"

abbrev pub expired_kind : Bytes
expired_kind = codes "expired"

-- The balance: the secrets created are those retrieved, those expired and those in the table.
abbrev pub IsBalanced : Db → Type 0
IsBalanced db =
    total created db.events
    ≡ total retrieved db.events + total expired_kind db.events + length db.secrets

-- The caller learns what the statement did.
abbrev pub IsAnswered : Verdict → Type 0
IsAnswered (lost _) = ⊥
IsAnswered _ = Unit

abbrev pub IsClean : Operation → Type 0
IsClean (put now c c' t input) = IsAnswered c.verdict × (c'.verdict ≡ completed)
IsClean (take_out c c' t) = IsAnswered c.verdict × (c'.verdict ≡ completed)
IsClean (sweep c c') = IsAnswered c.verdict × (c'.verdict ≡ completed)

-- The change of the three totals by an event.
module _ (c : Call) (db : Db) (n : ℕ) (done : c.verdict ≡ completed) where
  totals-created :
      (total created (record_event c db created n).events ≡ total created db.events + n)
      × (total retrieved (record_event c db created n).events ≡ total retrieved db.events)
      × (total expired_kind (record_event c db created n).events ≡ total expired_kind db.events)
  unfolding same
  totals-created = (
    omega (arith, total-record_event c db created created n done refl),
    omega (arith, total-record_event c db retrieved created n done refl),
    omega (arith, total-record_event c db expired_kind created n done refl),
  )

  totals-retrieved :
      (total created (record_event c db retrieved n).events ≡ total created db.events)
      × (total retrieved (record_event c db retrieved n).events ≡ total retrieved db.events + n)
      × (total expired_kind (record_event c db retrieved n).events ≡ total expired_kind db.events)
  unfolding same
  totals-retrieved = (
    omega (arith, total-record_event c db created retrieved n done refl),
    omega (arith, total-record_event c db retrieved retrieved n done refl),
    omega (arith, total-record_event c db expired_kind retrieved n done refl),
  )

  totals-expired :
      (total created (record_event c db expired_kind n).events ≡ total created db.events)
      × (total retrieved (record_event c db expired_kind n).events ≡ total retrieved db.events)
      × (total expired_kind (record_event c db expired_kind n).events
          ≡ total expired_kind db.events + n)
  unfolding same
  totals-expired = (
    omega (arith, total-record_event c db created expired_kind n done refl),
    omega (arith, total-record_event c db retrieved expired_kind n done refl),
    omega (arith, total-record_event c db expired_kind expired_kind n done refl),
  )

-- The balance after an event, from the tables before it.
module _ (c : Call) (db : Db) (n : ℕ) (done : c.verdict ≡ completed) where
  created-IsBalanced :
      total created db.events + n
        ≡ total retrieved db.events + total expired_kind db.events + length db.secrets
      → IsBalanced (record_event c db created n)
  created-IsBalanced h =
      let (a, b, d) = totals-created c db n done in
      omega (arith, a, b, d, ap length (record_event-secrets c db created n))

  retrieved-IsBalanced :
      total created db.events
        ≡ total retrieved db.events + n + total expired_kind db.events + length db.secrets
      → IsBalanced (record_event c db retrieved n)
  retrieved-IsBalanced h =
      let (a, b, d) = totals-retrieved c db n done in
      omega (arith, a, b, d, ap length (record_event-secrets c db retrieved n))

  expired-IsBalanced :
      total created db.events
        ≡ total retrieved db.events + total expired_kind db.events + n + length db.secrets
      → IsBalanced (record_event c db expired_kind n)
  expired-IsBalanced h =
      let (a, b, d) = totals-expired c db n done in
      omega (arith, a, b, d, ap length (record_event-secrets c db expired_kind n))

stored-IsBalanced :
    (c c' : Call) (db : Db) (s : Secret)
    → c'.verdict ≡ completed
    → IsBalanced db
    → IsBalanced (stored c' (insert_row c db s)).0
unfolding insert_row
stored-IsBalanced c c' db s done h =
    elim (Bool-cases (any (λ r. same r.token s.token || r.id == s.id) db.secrets)) [
      | inl e ↦ rw e h
      | inr e ↦ rw e (
          created-IsBalanced c' (record db { secrets = db.secrets ++ s ∷ [] }) 1 done
            (omega (arith, length-append db.secrets (s ∷ []))))
    ]

fetched-IsBalanced :
    (c c' : Call) (db : Db) (t : Bytes)
    → c'.verdict ≡ completed
    → IsValid db
    → IsBalanced db
    → IsBalanced (fetched c' (delete_returning c db t)).0
unfolding delete_returning
fetched-IsBalanced c c' db t done v h =
    go (keep (fetchable c.now t) db.secrets)
      (omega (
        arith,
        rows_with-fetchable c.now t db.secrets,
        rows_with-keep t (fetchable c.now t) db.secrets,
        v.unique t,
      ))
      (length-keep (fetchable c.now t) db.secrets)
  where
    rest : Db
    rest = record db { secrets = keep (λ r. not (fetchable c.now t r)) db.secrets }

    go :
        (gone : List Secret)
        → length gone ≤ 1
        → length rest.secrets + length gone ≡ length db.secrets
        → IsBalanced (fetched c' (rest, scan_row gone)).0
    go [] few split = unfold errors_is in omega arith
    go (s ∷ ss) few split = retrieved-IsBalanced c' rest 1 done (omega arith)

cleaned-IsBalanced :
    (c c' : Call) (db : Db)
    → c'.verdict ≡ completed
    → IsBalanced db
    → IsBalanced (cleaned c' (delete_expired c db)).0
unfolding delete_expired
cleaned-IsBalanced c c' db done h =
    elim (Bool-cases (ltb 0 (length (keep (expired c.now) db.secrets)))) [
      | inl e ↦ rw e (
          expired-IsBalanced c'
            (record db { secrets = keep (λ s. not (expired c.now s)) db.secrets })
            (length (keep (expired c.now) db.secrets)) done
            (omega (arith, length-keep (expired c.now) db.secrets)))
      | inr e ↦ rw e (ground (arith, length-keep (expired c.now) db.secrets))
    ]

-- A statement that is answered is carried out, or the operation fails and changes nothing.
pub answered {ℓ κ} :
    {A : Type ℓ} (P : Db × Result A → Type κ) (v : Verdict) (db : Db) (r : Db × Result A)
    → IsAnswered v
    → P r
    → ((text : Bytes) → P (db, err (external text)))
    → P (settle v db r)
answered P completed db r ok_v after failed = after
answered P (refused text) db r ok_v after failed = failed text
answered P (lost text) db r ok_v after failed = absurd ok_v

apply-IsBalanced :
    (o : Operation) (db : Db) → IsClean o → IsValid db → IsBalanced db → IsBalanced (apply o db)
unfolding apply store fetch_and_delete cleanup_expired errors_is
apply-IsBalanced (put now c c' t input) db (a, e) v h =
    answered (λ r. IsBalanced (stored c' r).0) c.verdict db
      (insert_row c db (new_row now c t input)) a (stored-IsBalanced c c' db _ e h) (λ text. h)
apply-IsBalanced (take_out c c' t) db (a, e) v h =
    answered (λ r. IsBalanced (fetched c' r).0) c.verdict db (delete_returning c db t) a
      (fetched-IsBalanced c c' db t e v h) (λ text. h)
apply-IsBalanced (sweep c c') db (a, e) v h =
    answered (λ r. IsBalanced (cleaned c' r).0) c.verdict db (delete_expired c db) a
      (cleaned-IsBalanced c c' db e h) (λ text. h)

abbrev pub AreClean : List Operation → Type 0
AreClean os = All IsClean os

-- The counters of the health page add up: starting from tables that are valid and balanced, after
-- any history in which the database loses no answer and writes each event, the number of secrets
-- created is the sum of those retrieved, those expired and those still in the table.
pub run-IsBalanced :
    (os : List Operation) (db : Db)
    → AreClean os
    → IsValid db
    → IsBalanced db
    → IsBalanced (run os db)
unfolding run
run-IsBalanced [] db clean v h = h
run-IsBalanced (o ∷ os) db (c, cs) v h =
    run-IsBalanced os (apply o db) cs (apply-IsValid o db v) (apply-IsBalanced o db c v h)
