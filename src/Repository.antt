-- ===== src/Repository.antt =====
-- internal/repository/secret_repo.go over the tables of internal/db/migrations/001_init.sql and
-- 003_secret_events.sql. PostgreSQL is a service: what it answers to a statement is the environment's
-- choice, a `Call`, and the statements act on the two tables as their SQL text says.
pub mod Rows
pub mod Fetch
pub mod Kept
pub mod Store
pub mod Cleanup
pub mod Interleave
pub mod Invariant
pub mod Ledger
pub mod Trace
pub mod Vault
mod Tests
use disapyr_link.Common.{
  ℕ, ℤ, pos, Bool, true, false, not, ◌&&◌, ◌||◌, List, [], ◌∷◌, ◌++◌, Option, none, some, Bytes,
  codes, ltb, ltb_ℤ, ◌==◌, if◌then◌else◌, same, keep, any, length, ◌+ℤ◌, ◌*ℤ◌, wrap64,
}
use disapyr_link.Model.{
  Secret, CreateSecretInput, sentinel, external, wrapped, no_rows, not_found, errors_is, Result, ok,
  err,
}

pub record Event : Type 0 where
  pub event_type : Bytes
  pub count : ℕ

-- A row of app_logs.
pub record LogRow : Type 0 where
  pub id : ℕ
  pub ts : ℤ
  pub level : Bytes
  pub msg : Bytes
  pub attrs : Option Bytes

pub record Db : Type 0 where
  pub secrets : List Secret
  pub events : List Event
  pub app_logs : List LogRow

-- A statement is carried out; or it fails and changes nothing; or it is carried out, but the answer
-- is lost and the caller sees an error.
pub data Verdict : Type 0 where
  completed : Verdict
  refused lost : Bytes → Verdict

-- One statement sent to the database: its verdict, the database's NOW(), what gen_random_uuid()
-- gives, the text of a constraint violation, and the timestamp that the driver sends for a time.
pub record Call : Type 0 where
  pub verdict : Verdict
  pub now : ℤ
  pub uuid : ℕ
  pub violation : Bytes
  pub stamp : ℤ → ℤ

-- What the caller sees of a statement whose effect and answer are `done`.
abbrev pub settle {ℓ κ} : {A : Type ℓ} {S : Type κ} → Verdict → S → S × Result A → S × Result A
settle completed db done = done
settle (refused text) db done = (db, err (external text))
settle (lost text) db (db', answer) = (db', err (external text))

-- INSERT INTO secrets: the id and the token are unique.
unfoldable pub insert_row : Call → Db → Secret → Db × Result (Unit {0})
insert_row c db s =
    if any (λ r. same r.token s.token || r.id == s.id) db.secrets
    then (db, err (external c.violation))
    else (record db { secrets = db.secrets ++ s ∷ [] }, ok tt)

-- CHECK (event_type IN ('created', 'retrieved', 'expired')).
abbrev pub known_event : Bytes → Bool
known_event t = same t (codes "created") || same t (codes "retrieved") || same t (codes "expired")

unfoldable pub insert_event : Call → Db → Bytes → ℕ → Db × Result (Unit {0})
insert_event c db event_type count =
    if known_event event_type
    then (
      record db { events = db.events ++ (record { event_type = event_type; count = count }) ∷ [] },
      ok tt,
    )
    else (db, err (external c.violation))

-- `recordEvent`: the error is discarded.
unfoldable pub record_event : Call → Db → Bytes → ℕ → Db
unfolding insert_event
record_event c db event_type count = (settle c.verdict db (insert_event c db event_type count)).0

abbrev pub second : ℤ
second = pos 1000000000

-- `time.Now().Add(time.Duration(input.ExpiresIn) * time.Second)`, if ExpiresIn is positive.
unfoldable pub expiry : ℤ → ℤ → Option ℤ
expiry now expires_in =
    if ltb_ℤ (pos 0) expires_in then some (now +ℤ wrap64 (expires_in *ℤ second)) else none

abbrev pub stamped : Call → Option ℤ → Option ℤ
stamped c none = none
stamped c (some t) = some (c.stamp t)

abbrev stored : Call → Db × Result (Unit {0}) → Db × Result (Unit {0})
stored c (db, ok _) = (record_event c db (codes "created") 1, ok tt)
stored c (db, err e) = (db, err (wrapped (codes "insert secret") e))

-- The row that Store inserts.
abbrev pub new_row : ℤ → Call → Bytes → CreateSecretInput → Secret
new_row now c token input = record {
  id = c.uuid;
  token = token;
  ciphertext = input.ciphertext;
  nonce = input.nonce;
  expires_at = stamped c (expiry now input.expires_in);
  created_at = c.now;
}

-- `Store`, with the program's clock, the call of the insertion and that of the event.
unfoldable pub store : ℤ → Call → Call → Db → Bytes → CreateSecretInput → Db × Result (Unit {0})
unfolding insert_row
store now c c' db token input =
    stored c' (settle c.verdict db (insert_row c db (new_row now c token input)))

-- expires_at IS NULL OR expires_at > NOW()
abbrev pub live : ℤ → Option ℤ → Bool
live now none = true
live now (some t) = ltb_ℤ now t

-- WHERE token = $1 AND (expires_at IS NULL OR expires_at > NOW())
abbrev pub fetchable : ℤ → Bytes → Secret → Bool
fetchable now token s = same s.token token && live now s.expires_at

abbrev pub scan_row : List Secret → Result Secret
scan_row [] = err (sentinel no_rows)
scan_row (s ∷ _) = ok s

-- DELETE FROM secrets WHERE … RETURNING …, and `Scan` of the first row.
unfoldable pub delete_returning : Call → Db → Bytes → Db × Result Secret
delete_returning c db token =
    let gone = fetchable c.now token in
    (record db { secrets = keep (λ s. not (gone s)) db.secrets }, scan_row (keep gone db.secrets))

abbrev fetched : Call → Db × Result Secret → Db × Result Secret
fetched c (db, ok s) = (record_event c db (codes "retrieved") 1, ok s)
fetched c (db, err e) =
    if errors_is e no_rows
    then (db, err (sentinel not_found))
    else (db, err (wrapped (codes "fetch and delete secret") e))

-- `FetchAndDelete`, with the call of the deletion and that of the event.
unfoldable pub fetch_and_delete : Call → Call → Db → Bytes → Db × Result Secret
unfolding delete_returning
fetch_and_delete c c' db token = fetched c' (settle c.verdict db (delete_returning c db token))

-- expires_at IS NOT NULL AND expires_at < NOW()
abbrev pub expired : ℤ → Secret → Bool
expired now s = elim s.expires_at [ none ↦ false | some t ↦ ltb_ℤ t now ]

unfoldable pub delete_expired : Call → Db → Db × Result ℕ
delete_expired c db = (
  record db { secrets = keep (λ s. not (expired c.now s)) db.secrets },
  ok (length (keep (expired c.now) db.secrets)),
)

abbrev cleaned : Call → Db × Result ℕ → Db × Result ℕ
cleaned c (db, ok n) = (if ltb 0 n then record_event c db (codes "expired") n else db, ok n)
cleaned c (db, err e) = (db, err (wrapped (codes "cleanup expired secrets") e))

-- `CleanupExpired`, with the call of the deletion and that of the event.
unfoldable pub cleanup_expired : Call → Call → Db → Db × Result ℕ
unfolding delete_expired
cleanup_expired c c' db = cleaned c' (settle c.verdict db (delete_expired c db))
