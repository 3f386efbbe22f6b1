-- ===== src/Repository/Vault/Refines.antt =====
-- The tables of internal/repository/secret_repo.go as an implementation of the vault.
use disapyr_link.Common.{
  ℕ, ◌≡◌, refl, ap, ◌∙◌, inl, inr, List, [], ◌∷◌, map, arith, Bytes, any, if◌then◌else◌, Bool-cases,
  sym, ltb, Option, none, some, subst, fun_ext,
}
use disapyr_link.Model.{Secret, external, not_found, errors_is, Result, ok, err}
use disapyr_link.Repository.{
  Db, Call, Verdict, completed, refused, lost, settle, expired, new_row, insert_row, store, stored,
  delete_returning, fetched, fetch_and_delete, delete_expired, cleaned, cleanup_expired,
}
use disapyr_link.Repository.Fetch.{HasUniqueTokens, record_event-secrets}
use disapyr_link.Repository.Store.{clashes}
use disapyr_link.Repository.Invariant.{IsValid}
use disapyr_link.Repository.Trace.{Operation, put, take_out, sweep, apply, run, apply-IsValid}
use disapyr_link.Repository.Vault.{
  Vault, Ask, deposit, withdraw, purge, Outcome, stored as was_stored, missing, done, broken, given,
  when_live, unexpired, Serves, deposited, withdrawn, not_there, swept, failed, unheard, Runs,
}
use disapyr_link.Repository.Vault.View.{
  view, view-append, view-keep, view-free, found, scan_row-view, view-taken, view-untaken,
}

-- The request that an operation is, with the row it would insert.
abbrev pub ask_of : Operation → Ask
ask_of (put now c c' t input) = deposit (new_row now c t input)
ask_of (take_out c c' t) = withdraw c.now t
ask_of (sweep c c') = purge c.now

abbrev pub put_outcome : Result (Unit {0}) → Outcome
put_outcome (ok _) = was_stored
put_outcome (err e) = broken

abbrev pub take_outcome : Result Secret → Outcome
take_outcome (ok s) = given s
take_outcome (err e) = if errors_is e not_found then missing else broken

abbrev pub sweep_outcome : Result ℕ → Outcome
sweep_outcome (ok n) = done
sweep_outcome (err e) = broken

-- What the caller of an operation learns.
unfoldable pub outcome : Operation → Db → Outcome
unfolding errors_is
outcome (put now c c' t input) db = put_outcome (store now c c' db t input).1
outcome (take_out c c' t) db = take_outcome (fetch_and_delete c c' db t).1
outcome (sweep c c') db = sweep_outcome (cleanup_expired c c' db).1

unfoldable pub outcomes : List Operation → Db → List Outcome
unfolding outcome apply
outcomes [] db = []
outcomes (o ∷ os) db = outcome o db ∷ outcomes os (apply o db)

-- The vault that the tables are.
abbrev pub vault : Db → Vault
vault db = view db.secrets

-- A statement with its verdict serves what it serves when it is carried out, or fails.
settle-Serves {ℓ} :
    {A : Type ℓ} (a : Ask) (db : Db) (v : Verdict) (r : Db × Result A)
    (classify : Result A → Outcome)
    → ((text : Bytes) → classify (err (external text)) ≡ broken)
    → Serves (vault db) a (vault r.0) (classify r.1)
    → Serves (vault db) a (vault (settle v db r).0) (classify (settle v db r).1)
settle-Serves a db completed r classify lost_is h = h
settle-Serves a db (refused text) r classify lost_is h =
    subst (Serves (vault db) a (vault db)) (sym (lost_is text)) (failed refl)
settle-Serves a db (lost text) (db', answer) classify lost_is h =
    subst (Serves (vault db) a (vault db')) (sym (lost_is text)) (unheard (classify answer) h)

-- The statement of the event behind it changes neither the secrets nor the answer.
stored-rest :
    (c : Call) (q : Db × Result (Unit {0})) (db : Db)
    → ((stored c q).0.secrets ≡ q.0.secrets) × ((stored c q).1 ≡ (stored c (db, q.1)).1)
stored-rest c (d, ok u) db = (record_event-secrets c d _ _, refl)
stored-rest c (d, err e) db = (refl, refl)

fetched-rest :
    (c : Call) (q : Db × Result Secret) (db : Db)
    → ((fetched c q).0.secrets ≡ q.0.secrets) × ((fetched c q).1 ≡ (fetched c (db, q.1)).1)
fetched-rest c (d, ok s) db = (record_event-secrets c d _ _, refl)
fetched-rest c (d, err e) db = ground arith

cleaned-rest :
    (c : Call) (q : Db × Result ℕ) (db : Db)
    → ((cleaned c q).0.secrets ≡ q.0.secrets) × ((cleaned c q).1 ≡ (cleaned c (db, q.1)).1)
cleaned-rest c (d, ok n) db = elim (Bool-cases (ltb 0 n)) [
  | inl e ↦ rw e (record_event-secrets c d _ _, refl)
  | inr e ↦ rw e (refl, refl)
]
cleaned-rest c (d, err e) db = (refl, refl)

-- The three statements, carried out.
insert_row-Serves :
    (c c' : Call) (db : Db) (s : Secret)
    → Serves
        (vault db)
        (deposit s)
        (vault (insert_row c db s).0)
        (put_outcome (stored c' (db, (insert_row c db s).1)).1)
unfolding insert_row
insert_row-Serves c c' db s = elim (Bool-cases (any (clashes s) db.secrets)) [
  | inl e ↦ rw e (failed refl)
  | inr e ↦
      let free = view-free s db.secrets e in
      rw e (deposited s refl free (fun_ext (λ u. view-append db.secrets s u free)))
]

delete_returning-Serves :
    (c c' : Call) (db : Db) (t : Bytes)
    → HasUniqueTokens db.secrets
    → Serves
        (vault db)
        (withdraw c.now t)
        (vault (delete_returning c db t).0)
        (take_outcome (fetched c' (db, (delete_returning c db t).1)).1)
unfolding delete_returning errors_is
delete_returning-Serves c c' db t unique = go (when_live c.now (view db.secrets t)) refl
  where
    go :
        (q : Option Secret)
        → when_live c.now (view db.secrets t) ≡ q
        → Serves
            (vault db)
            (withdraw c.now t)
            (vault (delete_returning c db t).0)
            (take_outcome (fetched c' (db, (delete_returning c db t).1)).1)
    go none e =
        let answer = scan_row-view c.now t db.secrets (unique t) ∙ ap found e in
        subst
          (λ r.
            Serves (vault db) (withdraw c.now t) (vault (delete_returning c db t).0)
              (take_outcome (fetched c' (db, r)).1))
          (sym answer)
          (not_there c.now t refl e (fun_ext (λ u. view-untaken c.now t u db.secrets (unique u) e)))
    go (some s) e =
        let answer = scan_row-view c.now t db.secrets (unique t) ∙ ap found e in
        subst
          (λ r.
            Serves (vault db) (withdraw c.now t) (vault (delete_returning c db t).0)
              (take_outcome (fetched c' (db, r)).1))
          (sym answer)
          (withdrawn c.now t s refl e (fun_ext (λ u. view-taken c.now t u db.secrets (unique u) e)))

delete_expired-Serves :
    (c c' : Call) (db : Db)
    → HasUniqueTokens db.secrets
    → Serves
        (vault db)
        (purge c.now)
        (vault (delete_expired c db).0)
        (sweep_outcome (cleaned c' (db, (delete_expired c db).1)).1)
unfolding delete_expired
delete_expired-Serves c c' db unique =
    swept c.now refl
      (fun_ext (λ u. view-keep (expired c.now) u db.secrets (unique u) ∙ shape (view db.secrets u)))
  where
    shape :
        (q : Option Secret)
        → (elim q as (λ _. Option Secret) [
          | none ↦ none
          | some s ↦ if expired c.now s then none else some s
        ])
          ≡ unexpired c.now q
    shape none = refl
    shape (some s) = refl

-- Each operation serves its request.
apply-Serves :
    (o : Operation) (db : Db)
    → IsValid db
    → Serves (vault db) (ask_of o) (vault (apply o db)) (outcome o db)
unfolding apply outcome store fetch_and_delete cleanup_expired errors_is
apply-Serves (put now c c' t input) db v =
    let s = new_row now c t input in
    let q = settle c.verdict db (insert_row c db s) in
    let (rows, answer) = stored-rest c' q db in
    let served =
      settle-Serves (deposit s) db c.verdict (insert_row c db s)
        (λ r. put_outcome (stored c' (db, r)).1) (λ text. refl) (insert_row-Serves c c' db s) in
    rw (rows, answer) served
apply-Serves (take_out c c' t) db v =
    let q = settle c.verdict db (delete_returning c db t) in
    let (rows, answer) = fetched-rest c' q db in
    let served =
      settle-Serves (withdraw c.now t) db c.verdict (delete_returning c db t)
        (λ r. take_outcome (fetched c' (db, r)).1) (λ text. refl)
        (delete_returning-Serves c c' db t v.unique) in
    rw (rows, answer) served
apply-Serves (sweep c c') db v =
    let q = settle c.verdict db (delete_expired c db) in
    let (rows, answer) = cleaned-rest c' q db in
    let served =
      settle-Serves (purge c.now) db c.verdict (delete_expired c db)
        (λ r. sweep_outcome (cleaned c' (db, r)).1) (λ text. refl)
        (delete_expired-Serves c c' db v.unique) in
    rw (rows, answer) served

-- The repository is a vault: from valid tables, every history of operations, with any answers of the
-- database, is a run of the vault that the tables are: it serves the same requests, its callers learn
-- the same outcomes, and it ends as the vault that the final tables are.
pub run_refines :
    (os : List Operation) (db : Db)
    → IsValid db
    → Runs (vault db) (map ask_of os) (outcomes os db) (vault (run os db))
unfolding run outcomes
run_refines [] db v = (refl, refl)
run_refines (o ∷ os) db v = (
  outcome o db,
  outcomes os (apply o db),
  vault (apply o db),
  refl,
  apply-Serves o db v,
  run_refines os (apply o db) (apply-IsValid o db v),
)
