-- ===== src/Repository/Trace.antt =====
-- Histories: the operations of internal/repository/secret_repo.go that the HTTP handlers and the
-- background goroutine of cmd/server/main.go perform, in any order, with any answers of the database.
use disapyr_link.Common.{
  subst, ℕ, ◌+◌, ◌≤◌, ℤ, ◌≡◌, refl, ◌⊎◌, inl, inr, Bool, true, false, ◌&&◌, List, [], ◌∷◌, arith,
  Bytes, same, same_iff, if◌then◌else◌, Bool-cases,
}
use disapyr_link.Model.{CreateSecretInput, Result, ok, err}
use disapyr_link.Repository.{Db, Call, store, fetch_and_delete, cleanup_expired, new_row}
use disapyr_link.Repository.Rows.{rows_with, rows_with-append}
use disapyr_link.Repository.Fetch.{rows_with-fetch, rows_with-fetch_ok}
use disapyr_link.Repository.Store.{store-secrets}
use disapyr_link.Repository.Cleanup.{rows_with-cleanup}
use disapyr_link.Repository.Invariant.{
  IsValid, store-IsValid, fetch_and_delete-IsValid, cleanup_expired-IsValid, rows_with-other,
  rows_with-one,
}

-- One operation with the answers of the database to its two statements.
pub data Operation : Type 0 where
  put : ℤ → Call → Call → Bytes → CreateSecretInput → Operation
  take_out : Call → Call → Bytes → Operation
  sweep : Call → Call → Operation

unfoldable pub apply : Operation → Db → Db
apply (put now c c' t input) db = (store now c c' db t input).0
apply (take_out c c' t) db = (fetch_and_delete c c' db t).0
apply (sweep c c') db = (cleanup_expired c c' db).0

unfoldable pub run : List Operation → Db → Db
unfolding apply
run [] db = db
run (o ∷ os) db = run os (apply o db)

abbrev pub is_ok {ℓ} : {A : Type ℓ} → Result A → Bool
is_ok (ok _) = true
is_ok (err _) = false

-- 1 for an operation that hands out the secret of a token.
abbrev pub revealed : Bytes → Operation → Db → ℕ
revealed t (put _ _ _ _ _) db = 0
revealed t (take_out c c' u) db = if same u t && is_ok (fetch_and_delete c c' db u).1 then 1 else 0
revealed t (sweep _ _) db = 0

-- How often a history hands out the secret of a token.
unfoldable pub reveals : Bytes → List Operation → Db → ℕ
unfolding apply
reveals t [] db = 0
reveals t (o ∷ os) db = revealed t o db + reveals t os (apply o db)

abbrev pub stores_it : Bytes → Operation → ℕ
stores_it t (put _ _ _ u _) = if same u t then 1 else 0
stores_it t _ = 0

-- How often a history asks to store a secret under a token.
unfoldable pub stores : Bytes → List Operation → ℕ
stores t [] = 0
stores t (o ∷ os) = stores_it t o + stores t os

pub rows_with-put :
    (t : Bytes) (now : ℤ) (c c' : Call) (db : Db) (u : Bytes) (input : CreateSecretInput)
    → rows_with t (store now c c' db u input).0.secrets
      ≤ rows_with t db.secrets + (if same u t then 1 else 0)
rows_with-put t now c c' db u input = elim (store-secrets now c c' db u input) [
  | inl e ↦ rw e (omega arith)
  | inr (_, e) ↦ rw (e, rows_with-append) (new_row_bound (Bool-cases (same u t)))
]
  where
    new_row_bound :
        (same u t ≡ true) ⊎ (same u t ≡ false)
        → rows_with t db.secrets + rows_with t (new_row now c u input ∷ [])
          ≤ rows_with t db.secrets + (if same u t then 1 else 0)
    new_row_bound (inl e) = rw e (omega (arith, rows_with-one t (new_row now c u input)))
    new_row_bound (inr e) = rw e (omega (arith, rows_with-other t (new_row now c u input) e))

is_ok-ok {ℓ} : {A : Type ℓ} (r : Result A) → is_ok r ≡ true → (a : A) × (r ≡ ok a)
is_ok-ok (ok a) h = (a, refl)
is_ok-ok (err e) h = cc

rows_with-take_out :
    (t : Bytes) (c c' : Call) (db : Db) (u : Bytes)
    → revealed t (take_out c c' u) db + rows_with t (fetch_and_delete c c' db u).0.secrets
      ≤ rows_with t db.secrets
rows_with-take_out t c c' db u =
    elim (Bool-cases (same u t && is_ok (fetch_and_delete c c' db u).1)) [
      | inl e ↦
          let same_token : u ≡ t = (same_iff u t).0 (ground arith) in
          let (s, fetched) = is_ok-ok (fetch_and_delete c c' db u).1 (ground arith) in
          rw e (
            omega (
              arith,
              subst
                  (λ v.
                    rows_with v (fetch_and_delete c c' db u).0.secrets + 1 ≤ rows_with v db.secrets)
                  same_token (rows_with-fetch_ok c c' db u fetched),
            ))
      | inr e ↦ rw e (omega (arith, rows_with-fetch c c' db u t))
    ]

pub rows_with-apply :
    (t : Bytes) (o : Operation) (db : Db)
    → revealed t o db + rows_with t (apply o db).secrets ≤ rows_with t db.secrets + stores_it t o
unfolding apply
rows_with-apply t (put now c c' u input) db = omega (arith, rows_with-put t now c c' db u input)
rows_with-apply t (take_out c c' u) db = omega (arith, rows_with-take_out t c c' db u)
rows_with-apply t (sweep c c') db = omega (arith, rows_with-cleanup c c' db t)

-- In every history, each time the secret of a token is handed out a row that bears the token is used
-- up, and only a store brings one: the number of times it is handed out and of the rows left is at
-- most the number of the rows at the start and of the stores.
pub reveals-le-stores :
    (t : Bytes) (os : List Operation) (db : Db)
    → reveals t os db + rows_with t (run os db).secrets ≤ rows_with t db.secrets + stores t os
unfolding reveals run stores
reveals-le-stores t [] db = omega arith
reveals-le-stores t (o ∷ os) db =
    omega (arith, rows_with-apply t o db, reveals-le-stores t os (apply o db))

-- A secret is handed out at most once: if a token is on no row at the start and is stored at most
-- once, then whatever is asked, in whatever order, at whatever times, and whatever the database
-- answers, at most one fetch of it succeeds.
pub reveals-le-one :
    (t : Bytes) (os : List Operation) (db : Db)
    → rows_with t db.secrets ≡ 0
    → stores t os ≤ 1
    → reveals t os db ≤ 1
reveals-le-one t os db fresh once = omega (arith, reveals-le-stores t os db)

pub apply-IsValid : (o : Operation) (db : Db) → IsValid db → IsValid (apply o db)
unfolding apply
apply-IsValid (put now c c' t input) db v = store-IsValid now c c' db t input v
apply-IsValid (take_out c c' t) db v = fetch_and_delete-IsValid c c' db t v
apply-IsValid (sweep c c') db v = cleanup_expired-IsValid c c' db v

-- Every history keeps the tables valid: no two rows bear one token, and every event is of a known
-- kind, whatever the database answers.
pub run-IsValid : (os : List Operation) (db : Db) → IsValid db → IsValid (run os db)
unfolding run
run-IsValid [] db v = v
run-IsValid (o ∷ os) db v = run-IsValid os (apply o db) (apply-IsValid o db v)
