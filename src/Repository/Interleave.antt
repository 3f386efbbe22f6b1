-- ===== src/Repository/Interleave.antt =====
-- The operations of internal/repository/secret_repo.go at work at the same time. Each sends a statement
-- and, if it succeeded, a second one for its event; PostgreSQL runs each statement as a whole, and the
-- statements of others may come between the two.
pub mod Alone
pub mod Once
pub mod Match
pub mod Balance
use disapyr_link.Common.{
  ℕ, ◌+◌, ◌≡◌, List, [], ◌∷◌, ◌++◌, map, arith, Bytes, if◌then◌else◌, ltb, codes,
}
use disapyr_link.Model.{Secret, wrapped, sentinel, not_found, no_rows, errors_is, Result, ok, err}
use disapyr_link.Repository.{
  Db, Call, settle, insert_row, new_row, delete_returning, delete_expired, record_event,
}
use disapyr_link.Repository.Trace.{Operation, put, take_out, sweep}
use disapyr_link.Repository.Ledger.{created, retrieved, expired_kind}
use disapyr_link.Repository.Vault.{Outcome, stored as was_stored, done, broken}
use disapyr_link.Repository.Vault as Vault
use disapyr_link.Repository.Vault.Refines.{take_outcome}

-- A call of an operation: before its first statement; before the statement of its event, with the
-- answer for the caller; or over.
pub data Phase : Type 0 where
  entering : Operation → Phase
  recording : Call → Bytes → ℕ → Outcome → Phase
  finished : Outcome → Phase

abbrev pub after_insert : Call → Result (Unit {0}) → Phase
after_insert c' (ok _) = recording c' created 1 was_stored
after_insert c' (err e) = finished broken

abbrev pub after_fetch : Call → Result Secret → Phase
after_fetch c' (ok s) = recording c' retrieved 1 (Vault.given s)
after_fetch c' (err e) = finished (
    take_outcome (
      if errors_is e no_rows
      then err (sentinel not_found)
      else err (wrapped (codes "fetch and delete secret") e)))

abbrev pub after_sweep : Call → Result ℕ → Phase
after_sweep c' (ok n) = if ltb 0 n then recording c' expired_kind n done else finished done
after_sweep c' (err e) = finished broken

abbrev pub with_phase {ℓ} : {A : Type ℓ} → (A → Phase) → Db × A → Db × Phase
with_phase f (db, a) = (db, f a)

-- The first statement of an operation, and what the operation goes on with.
unfoldable pub first : Operation → Db → Db × Phase
unfolding errors_is
first (put now c c' t input) db =
    with_phase (after_insert c') (settle c.verdict db (insert_row c db (new_row now c t input)))
first (take_out c c' t) db =
    with_phase (after_fetch c') (settle c.verdict db (delete_returning c db t))
first (sweep c c') db = with_phase (after_sweep c') (settle c.verdict db (delete_expired c db))

pub record State : Type 0 where
  pub db : Db
  pub calls : List Phase

pub data Step (s t : State) : Type 0 where
  begins :
      (before after : List Phase) (o : Operation)
      → s.calls ≡ before ++ entering o ∷ after
      → t ≡ record { db = (first o s.db).0; calls = before ++ (first o s.db).1 ∷ after }
      → Step s t
  records :
      (before after : List Phase) (c : Call) (kind : Bytes) (n : ℕ) (x : Outcome)
      → s.calls ≡ before ++ recording c kind n x ∷ after
      → t ≡ record { db = record_event c s.db kind n; calls = before ++ finished x ∷ after }
      → Step s t

pub data Reach (s : State) : State → Type 0 where
  here : Reach s s
  next : {t u : State} → Reach s t → Step t u → Reach s u

-- Operations that are all about to begin.
abbrev pub start : Db → List Operation → State
start db os = record { db = db; calls = map entering os }

unfoldable pub sum_of : (Phase → ℕ) → List Phase → ℕ
sum_of w [] = 0
sum_of w (p ∷ ps) = w p + sum_of w ps

-- What the step of one call does to a sum over all.
pub sum_of-append :
    (w : Phase → ℕ) (ps qs : List Phase) → sum_of w (ps ++ qs) ≡ sum_of w ps + sum_of w qs
unfolding sum_of
sum_of-append w [] qs = omega arith
sum_of-append w (p ∷ ps) qs = omega (arith, sum_of-append w ps qs)

pub sum_of-split :
    (w : Phase → ℕ) (before after : List Phase) (p : Phase)
    → sum_of w (before ++ p ∷ after) ≡ sum_of w before + w p + sum_of w after
unfolding sum_of
sum_of-split w before after p = omega (arith, sum_of-append w before (p ∷ after))
