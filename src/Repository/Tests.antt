-- ===== src/Repository/Tests.antt =====
-- Histories of a small table of secrets, for the theorems about
-- internal/repository/secret_repo.go.
use disapyr_link.Common.{
  map, ◌≤◌, ℤ, pos, ◌<ℤ◌, ◌+ℤ◌, ◌*ℤ◌, wrap64, ◌≡◌, refl, ◌↔◌, false, List, [], ◌∷◌, arith, Bytes,
  same, any, codes, some,
}
use disapyr_link.Model.{Secret, CreateSecretInput, sentinel, not_found, errors_is, err}
use disapyr_link.Repository.{
  Db, Call, completed, store, fetch_and_delete, record_event, new_row, expiry, fetchable,
}
use disapyr_link.Repository.Rows.{rows_with}
use disapyr_link.Repository.Trace.{
  Operation, put, take_out, apply, run, reveals, stores, reveals-le-one,
}
use disapyr_link.Repository.Invariant.{IsValid}
use disapyr_link.Repository.Fetch.{fetch_and_delete-not_found_iff}
use disapyr_link.Repository.Store.{expiry_wrapped}
use disapyr_link.Repository.Vault.{Runs}
use disapyr_link.Repository.Vault.Refines.{ask_of, outcomes, vault, run_refines}
use disapyr_link.Repository.Interleave as Interleave
use disapyr_link.Repository.Interleave.{State, entering, first, begins, Reach, here, next, sum_of}
use disapyr_link.Repository.Interleave.Once.{handed, Reach-handed}
use disapyr_link.Repository.Interleave.Balance.{IsFlowing, Reach-IsFlowing}
use disapyr_link.Repository.Ledger.{total, IsBalanced, AreClean, run-IsBalanced}

abbrev call_at : ℤ → Call
call_at t = record {
  verdict = completed;
  now = t;
  uuid = 1;
  violation = codes "dup";
  stamp = λ u. u;
}

abbrev early : Call
early = call_at (pos 100)

abbrev late : Call
late = call_at (pos 3000000000)

abbrev token : Bytes
token = codes "ab12"

abbrev input : CreateSecretInput
input = record { ciphertext = 1 ∷ 2 ∷ []; nonce = 3 ∷ []; expires_in = pos 2 }

abbrev empty_db : Db
empty_db = record { secrets = []; events = []; app_logs = [] }

abbrev row : Secret
row = new_row (pos 50) early token input

abbrev one_db : Db
one_db = record {
  secrets = row ∷ [];
  events = record { event_type = codes "created"; count = 1 } ∷ [];
  app_logs = [];
}

abbrev history : List Operation
history =
    put (pos 50) early early token input
    ∷ take_out early early token
    ∷ take_out early early token
    ∷ []

reveals-le-one_example : reveals token history empty_db ≤ 1
unfolding stores rows_with same
reveals-le-one_example = reveals-le-one token history empty_db refl (omega arith)

-- The first of two fetches hands the secret out.
reveals-history : reveals token history empty_db ≡ 1
unfolding reveals apply fetch_and_delete same store expiry ◌+ℤ◌ wrap64 ◌*ℤ◌ record_event errors_is
reveals-history = refl

fetch_and_delete-not_found_iff_example :
    ((fetch_and_delete late early one_db token).1 ≡ err (sentinel not_found))
    ↔ ((late.verdict ≡ completed) × (any (fetchable late.now token) one_db.secrets ≡ false))
fetch_and_delete-not_found_iff_example = fetch_and_delete-not_found_iff late early one_db token

expiry_wrapped_example : (t : ℤ) × (expiry (pos 50) (pos 9223372037) ≡ some t) × (t <ℤ pos 50)
expiry_wrapped_example = expiry_wrapped (pos 50) 9223372037 (omega arith) (omega arith)

empty_db-IsValid : IsValid empty_db
unfolding rows_with
empty_db-IsValid = record { unique = λ t. omega arith; known = tt }

clean_history : AreClean history
clean_history = ((tt, refl), ((tt, refl), ((tt, refl), tt)))

run-IsBalanced_example : IsBalanced (run history empty_db)
unfolding total
run-IsBalanced_example = run-IsBalanced history empty_db clean_history empty_db-IsValid refl

run_refines_example :
    Runs
      (vault empty_db)
      (map ask_of history)
      (outcomes history empty_db)
      (vault (run history empty_db))
run_refines_example = run_refines history empty_db empty_db-IsValid

-- Two fetches of one secret are at work at the same time, and the second one starts behind the first
-- statement of the first one.
abbrev fetches : List Operation
fetches = take_out early early token ∷ take_out early early token ∷ []

abbrev storing : List Operation
storing = put (pos 50) early early token input ∷ fetches

abbrev started : State
started = Interleave.start empty_db storing

abbrev one_in : State
one_in = record {
  db = (first (put (pos 50) early early token input) empty_db).0;
  calls = (first (put (pos 50) early early token input) empty_db).1 ∷ map entering fetches;
}

abbrev two_in : State
two_in = record {
  db = (first (take_out early early token) one_in.db).0;
  calls =
      (first (put (pos 50) early early token input) empty_db).1
      ∷ (first (take_out early early token) one_in.db).1
      ∷ entering (take_out early early token)
      ∷ [];
}

abbrev three_in : State
three_in = record {
  db = (first (take_out early early token) two_in.db).0;
  calls =
      (first (put (pos 50) early early token input) empty_db).1
      ∷ (first (take_out early early token) one_in.db).1
      ∷ (first (take_out early early token) two_in.db).1
      ∷ [];
}

crossed : Reach started three_in
crossed =
    next
      (next
        (next here
          (begins [] (map entering fetches) (put (pos 50) early early token input) refl refl))
        (begins ((first (put (pos 50) early early token input) empty_db).1 ∷ [])
          (entering (take_out early early token) ∷ []) (take_out early early token) refl refl))
      (begins
        ((first (put (pos 50) early early token input) empty_db).1
          ∷ (first (take_out early early token) one_in.db).1
          ∷ [])
        [] (take_out early early token) refl refl)

Reach-handed_example : sum_of (handed token) three_in.calls ≤ 1
unfolding stores rows_with same
Reach-handed_example = Reach-handed token empty_db storing crossed refl (omega arith)

-- The first of the two fetches, with its event still to be counted, has the secret.
handed-crossed : sum_of (handed token) three_in.calls ≡ 1
unfolding sum_of first same store fetch_and_delete expiry ◌+ℤ◌ wrap64 ◌*ℤ◌ errors_is
handed-crossed = refl

Reach-IsFlowing_example : IsFlowing three_in
unfolding total
Reach-IsFlowing_example =
    Reach-IsFlowing empty_db storing crossed ((tt, refl), ((tt, refl), ((tt, refl), tt)))
      empty_db-IsValid refl
