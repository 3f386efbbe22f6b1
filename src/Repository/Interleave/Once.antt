-- ===== src/Repository/Interleave/Once.antt =====
-- How often a secret of internal/repository/secret_repo.go is handed out to calls that interleave.
use disapyr_link.Common.{
  ℕ, ◌+◌, ◌≤◌, ◌≡◌, refl, ap, ◌∙◌, false, ◌&&◌, List, [], ◌∷◌, map, arith, Bytes, same,
  if◌then◌else◌, sym, ltb,
}
use disapyr_link.Common.{if_ind}
use disapyr_link.Model.{Secret, not_found, errors_is, Result, ok, err}
use disapyr_link.Repository.{
  Db, Call, settle, insert_row, new_row, delete_expired, delete_returning, store, fetch_and_delete,
  cleanup_expired,
}
use disapyr_link.Repository.Rows.{rows_with}
use disapyr_link.Repository.Fetch.{record_event-secrets, fetch_and_delete_sound}
use disapyr_link.Repository.Trace.{
  Operation, put, take_out, sweep, apply, is_ok, revealed, stores_it, stores, rows_with-apply,
}
use disapyr_link.Repository.Vault.{Outcome, given, missing, broken, done}
use disapyr_link.Repository.Vault as Vault
use disapyr_link.Repository.Vault.Refines.{put_outcome, take_outcome, sweep_outcome, outcome}
use disapyr_link.Repository.Interleave.{
  Phase, entering, recording, finished, after_insert, after_fetch, after_sweep, with_phase, first,
  State, Step, begins, records, Reach, here, next, start, sum_of, sum_of-split,
}
use disapyr_link.Repository.Interleave.Alone.{finish, finish-first}

-- 1 for an answer that is the secret of a token.
abbrev pub got : Bytes → Outcome → ℕ
got t (given s) = if same s.token t then 1 else 0
got t Vault.stored = 0
got t missing = 0
got t done = 0
got t broken = 0

-- 1 for a call that was handed the secret of a token, whether or not its event is written.
abbrev pub handed : Bytes → Phase → ℕ
handed t (entering o) = 0
handed t (recording c kind n x) = got t x
handed t (finished x) = got t x

-- The same, and 1 for a call that will store a secret under the token.
abbrev claims : Bytes → Phase → ℕ
claims t (entering o) = stores_it t o
claims t (recording c kind n x) = got t x
claims t (finished x) = got t x

got-revealed : (t : Bytes) (o : Operation) (db : Db) → got t (outcome o db) ≤ revealed t o db
unfolding outcome
got-revealed t (put now c c' u input) db = stored_case (store now c c' db u input).1
  where
    stored_case : (r : Result (Unit {0})) → got t (put_outcome r) ≤ 0
    stored_case (ok x) = omega arith
    stored_case (err e) = omega arith
got-revealed t (sweep c c') db = swept_case (cleanup_expired c c' db).1
  where
    swept_case : (r : Result ℕ) → got t (sweep_outcome r) ≤ 0
    swept_case (ok n) = omega arith
    swept_case (err e) = omega arith
got-revealed t (take_out c c' u) db =
    go (fetch_and_delete c c' db u).1 (λ s h. (fetch_and_delete_sound c c' db u {s = s} h).1)
  where
    go :
        (r : Result Secret)
        → ((s : Secret) → r ≡ ok s → s.token ≡ u)
        → got t (take_outcome r) ≤ (if same u t && is_ok r then 1 else 0)
    go (ok s) named = rw (named s refl) (ground arith)
    go (err e) named =
        if_ind (λ x. got t x ≤ (if same u t && false then 1 else 0)) (errors_is e not_found)
          (λ h. omega arith) (λ h. omega arith)

-- The first statement of a call settles its answer.
claims-insert :
    (t : Bytes) (c : Call) (q : Db × Result (Unit {0}))
    → claims t (with_phase (after_insert c) q).1 ≡ got t (finish (with_phase (after_insert c) q)).1
claims-insert t c (db, ok u) = refl
claims-insert t c (db, err e) = refl

claims-fetch :
    (t : Bytes) (c : Call) (q : Db × Result Secret)
    → claims t (with_phase (after_fetch c) q).1 ≡ got t (finish (with_phase (after_fetch c) q)).1
claims-fetch t c (db, ok s) = refl
claims-fetch t c (db, err e) = refl

claims-sweep :
    (t : Bytes) (c : Call) (q : Db × Result ℕ)
    → claims t (with_phase (after_sweep c) q).1 ≡ got t (finish (with_phase (after_sweep c) q)).1
claims-sweep t c (db, ok n) =
    if_ind (λ p. claims t p ≡ got t (finish (db, p)).1) (ltb 0 n) (λ h. refl) (λ h. refl)
claims-sweep t c (db, err e) = refl

claims-first :
    (t : Bytes) (o : Operation) (db : Db) → claims t (first o db).1 ≡ got t (outcome o db)
unfolding first
claims-first t o db = settled o ∙ ap (λ q. got t q.1) (finish-first o db)
  where
    settled : (o : Operation) → claims t (first o db).1 ≡ got t (finish (first o db)).1
    settled (put now c c' u input) =
        claims-insert t c' (settle c.verdict db (insert_row c db (new_row now c u input)))
    settled (take_out c c' u) = claims-fetch t c' (settle c.verdict db (delete_returning c db u))
    settled (sweep c c') = claims-sweep t c' (settle c.verdict db (delete_expired c db))

pub first-secrets : (o : Operation) (db : Db) → (first o db).0.secrets ≡ (apply o db).secrets
first-secrets o db = kept (first o db) ∙ ap (λ q. q.0.secrets) (finish-first o db)
  where
    kept : (q : Db × Phase) → q.0.secrets ≡ (finish q).0.secrets
    kept (d, entering p) = refl
    kept (d, recording c kind n x) = sym (record_event-secrets c d kind n)
    kept (d, finished x) = refl

Step-claims :
    (t : Bytes) {s s' : State}
    → Step s s'
    → rows_with t s'.db.secrets + sum_of (claims t) s'.calls
      ≤ rows_with t s.db.secrets + sum_of (claims t) s.calls
Step-claims t {s} (begins before after o e h) = rw h (
    omega (
      arith,
      ap (sum_of (claims t)) e,
      sum_of-split (claims t) before after (entering o),
      sum_of-split (claims t) before after (first o s.db).1,
      ap (λ l. rows_with t l) (first-secrets o s.db),
      claims-first t o s.db,
      got-revealed t o s.db,
      rows_with-apply t o s.db,
    ))
Step-claims t {s} (records before after c kind n x e h) = rw h (
    omega (
      arith,
      ap (sum_of (claims t)) e,
      sum_of-split (claims t) before after (recording c kind n x),
      sum_of-split (claims t) before after (finished x),
      ap (λ l. rows_with t l) (record_event-secrets c s.db kind n),
    ))

Reach-claims :
    (t : Bytes) {s s' : State}
    → Reach s s'
    → rows_with t s'.db.secrets + sum_of (claims t) s'.calls
      ≤ rows_with t s.db.secrets + sum_of (claims t) s.calls
Reach-claims t here = omega arith
Reach-claims t (next r st) = omega (arith, Reach-claims t r, Step-claims t st)

handed-le-claims : (t : Bytes) (ps : List Phase) → sum_of (handed t) ps ≤ sum_of (claims t) ps
unfolding sum_of
handed-le-claims t [] = omega arith
handed-le-claims t (entering o ∷ ps) = omega (arith, handed-le-claims t ps)
handed-le-claims t (recording c kind n x ∷ ps) = omega (arith, handed-le-claims t ps)
handed-le-claims t (finished x ∷ ps) = omega (arith, handed-le-claims t ps)

claims-start : (t : Bytes) (os : List Operation) → sum_of (claims t) (map entering os) ≡ stores t os
unfolding sum_of stores
claims-start t [] = refl
claims-start t (o ∷ os) = omega (arith, claims-start t os)

-- A secret is handed out at most once to calls at work at the same time: if a token is on no row when
-- they begin and at most one of them stores a secret under it, then however their statements
-- interleave, and whatever the database answers, at most one call is handed the secret of this token,
-- at any moment, also while its event is not yet written.
pub Reach-handed :
    (t : Bytes) (db : Db) (os : List Operation) {s : State}
    → Reach (start db os) s
    → rows_with t db.secrets ≡ 0
    → stores t os ≤ 1
    → sum_of (handed t) s.calls ≤ 1
Reach-handed t db os {s} r fresh once =
    omega (arith, Reach-claims t r, handed-le-claims t s.calls, claims-start t os)
