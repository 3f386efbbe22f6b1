-- ===== src/Repository/Interleave/Alone.antt =====
-- An operation of internal/repository/secret_repo.go whose two statements nothing comes between.
use disapyr_link.Common.{ℕ, ◌≡◌, refl, inl, inr, arith, Bool-cases, ltb}
use disapyr_link.Model.{Secret, errors_is, Result, ok, err}
use disapyr_link.Repository.{
  Db, Call, settle, record_event, delete_returning, store, fetch_and_delete, cleanup_expired,
  stored, fetched, cleaned,
}
use disapyr_link.Repository.Trace.{Operation, put, take_out, sweep, apply}
use disapyr_link.Repository.Vault.{Outcome, broken}
use disapyr_link.Repository.Vault.Refines.{put_outcome, take_outcome, sweep_outcome, outcome}
use disapyr_link.Repository.Interleave.{
  Phase, entering, recording, finished, after_insert, after_fetch, after_sweep, with_phase, first,
}

-- The rest of a call, at once.
abbrev pub finish : Db × Phase → Db × Outcome
finish (db, entering o) = (db, broken)
finish (db, recording c kind n x) = (record_event c db kind n, x)
finish (db, finished x) = (db, x)

finish-insert :
    (c' : Call) (q : Db × Result (Unit {0}))
    → finish (with_phase (after_insert c') q) ≡ ((stored c' q).0, put_outcome (stored c' q).1)
finish-insert c' (db, ok u) = refl
finish-insert c' (db, err e) = refl

finish-fetch :
    (c' : Call) (q : Db × Result Secret)
    → finish (with_phase (after_fetch c') q) ≡ ((fetched c' q).0, take_outcome (fetched c' q).1)
unfolding errors_is
finish-fetch c' (db, ok s) = refl
finish-fetch c' (db, err e) = ground arith

finish-sweep :
    (c' : Call) (q : Db × Result ℕ)
    → finish (with_phase (after_sweep c') q) ≡ ((cleaned c' q).0, sweep_outcome (cleaned c' q).1)
finish-sweep c' (db, ok n) = elim (Bool-cases (ltb 0 n)) [ inl e ↦ rw e refl | inr e ↦ rw e refl ]
finish-sweep c' (db, err e) = refl

-- The two statements of an operation, with nothing between them, are the operation: they leave the
-- tables that it leaves, and its caller learns the same.
pub finish-first : (o : Operation) (db : Db) → finish (first o db) ≡ (apply o db, outcome o db)
unfolding first apply outcome store fetch_and_delete cleanup_expired
finish-first (put now c c' t input) db = finish-insert c' _
finish-first (take_out c c' t) db = finish-fetch c' (settle c.verdict db (delete_returning c db t))
finish-first (sweep c c') db = finish-sweep c' _
