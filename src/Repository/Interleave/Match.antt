-- ===== src/Repository/Interleave/Match.antt =====
-- What the first statement of an operation of internal/repository/secret_repo.go does to the rows and to the
-- events that are still to be written.
use disapyr_link.Common.{
  ℕ, ◌+◌, ◌≤◌, ◌≡◌, refl, inl, inr, true, not, ◌||◌, List, [], ◌∷◌, ◌==◌, arith, Bytes, same, keep,
  length, any, if◌then◌else◌, Bool-cases, ltb, length-append,
}
use disapyr_link.Model.{Secret}
use disapyr_link.Repository.{
  Db, Call, completed, known_event, insert_row, new_row, delete_returning, delete_expired, scan_row,
  fetchable, expired,
}
use disapyr_link.Repository.Rows.{rows_with-keep, rows_with-fetchable, length-keep}
use disapyr_link.Repository.Fetch.{HasUniqueTokens}
use disapyr_link.Repository.Invariant.{IsValid}
use disapyr_link.Repository.Trace.{Operation, put, take_out, sweep}
use disapyr_link.Repository.Ledger.{created, retrieved, expired_kind, IsClean, answered}
use disapyr_link.Repository.Interleave.{
  Phase, entering, recording, finished, after_insert, after_fetch, after_sweep, with_phase, first,
}

-- What a call will still add to the total of a kind.
abbrev pub pending : Bytes → Phase → ℕ
pending kind (entering o) = 0
pending kind (recording c k n x) = if same k kind then n else 0
pending kind (finished x) = 0

-- The database answers the statement of a call, and writes its event.
abbrev pub IsClear : Phase → Type 0
IsClear (entering o) = IsClean o
IsClear (recording c kind n x) = (c.verdict ≡ completed) × (known_event kind ≡ true)
IsClear (finished x) = Unit

-- A first statement that was answered: it writes no event, and the rows it adds or removes are those
-- that its call will write in an event.
pub record IsMatched (db : Db) (q : Db × Phase) : Type 0 where
  pub events : q.0.events ≡ db.events
  pub rows :
      length q.0.secrets + pending retrieved q.1 + pending expired_kind q.1
      ≡ length db.secrets + pending created q.1
  pub clear : IsClear q.1

insert-IsMatched :
    (c c' : Call) (db : Db) (s : Secret)
    → c'.verdict ≡ completed
    → IsMatched db (with_phase (after_insert c') (insert_row c db s))
unfolding insert_row same
insert-IsMatched c c' db s written =
    elim (Bool-cases (any (λ r. same r.token s.token || r.id == s.id) db.secrets)) [
      | inl e ↦ rw e (record { events = refl; rows = omega arith; clear = tt })
      | inr e ↦ rw e (record {
        events = refl;
        rows = omega (arith, length-append {0} db.secrets (s ∷ []));
        clear = (written, refl);
      })
    ]

fetch-IsMatched :
    (c c' : Call) (db : Db) (t : Bytes)
    → c'.verdict ≡ completed
    → HasUniqueTokens db.secrets
    → IsMatched db (with_phase (after_fetch c') (delete_returning c db t))
unfolding delete_returning same
fetch-IsMatched c c' db t written unique =
    go (keep (fetchable c.now t) db.secrets)
      (omega (
        arith,
        rows_with-fetchable c.now t db.secrets,
        rows_with-keep t (fetchable c.now t) db.secrets,
        unique t,
      ))
      (length-keep (fetchable c.now t) db.secrets)
  where
    rest : Db
    rest = record db { secrets = keep (λ r. not (fetchable c.now t r)) db.secrets }

    go :
        (gone : List Secret)
        → length gone ≤ 1
        → length rest.secrets + length gone ≡ length db.secrets
        → IsMatched db (with_phase (after_fetch c') (rest, scan_row gone))
    go [] few split = record { events = refl; rows = omega arith; clear = tt }
    go (s ∷ ss) few split = record { events = refl; rows = omega arith; clear = (written, refl) }

sweep-IsMatched :
    (c c' : Call) (db : Db)
    → c'.verdict ≡ completed
    → IsMatched db (with_phase (after_sweep c') (delete_expired c db))
unfolding delete_expired same
sweep-IsMatched c c' db written =
    elim (Bool-cases (ltb 0 (length (keep (expired c.now) db.secrets)))) [
      | inl e ↦ rw e (record {
        events = refl;
        rows = omega (arith, length-keep (expired c.now) db.secrets);
        clear = (written, refl);
      })
      | inr e ↦ rw e (record {
        events = refl;
        rows = ground (arith, length-keep (expired c.now) db.secrets);
        clear = tt;
      })
    ]

pub first-IsMatched : (o : Operation) (db : Db) → IsClean o → IsValid db → IsMatched db (first o db)
unfolding first
first-IsMatched (put now c c' t input) db (a, e) v =
    answered (λ q. IsMatched db (with_phase (after_insert c') q)) c.verdict db
      (insert_row c db (new_row now c t input)) a (insert-IsMatched c c' db _ e)
      (λ text. record { events = refl; rows = omega arith; clear = tt })
first-IsMatched (take_out c c' t) db (a, e) v =
    answered (λ q. IsMatched db (with_phase (after_fetch c') q)) c.verdict db
      (delete_returning c db t) a (fetch-IsMatched c c' db t e v.unique)
      (λ text. record { events = refl; rows = omega arith; clear = tt })
first-IsMatched (sweep c c') db (a, e) v =
    answered (λ q. IsMatched db (with_phase (after_sweep c') q)) c.verdict db (delete_expired c db)
      a (sweep-IsMatched c c' db e)
      (λ text. record { events = refl; rows = omega arith; clear = tt })
