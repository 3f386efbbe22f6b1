-- ===== src/Service.antt =====
-- internal/service/secret_service.go. `rand.Read` is the system's source of randomness: what it fills
-- the buffer with, or its error, is an argument.
pub mod Create
pub mod Kept
use disapyr_link.Common.{ℕ, ℤ, pos, ltb_ℤ, Bytes, length, if◌then◌else◌, codes}
use disapyr_link.Model.{Secret, CreateSecretInput, sentinel, wrapped, too_large, Result, ok, err}
use disapyr_link.Repository.{Db, Call, store, fetch_and_delete}
use disapyr_link.Encoding.Hex

-- The length of the token's buffer.
abbrev pub token_bytes : ℕ
token_bytes = 16

-- `generateToken`.
unfoldable pub generate_token : Result Bytes → Result Bytes
generate_token (ok b) = ok (Hex.encode b)
generate_token (err e) = err e

abbrev answer_token : Bytes → Db × Result (Unit {0}) → Db × Result Bytes
answer_token t (db, ok _) = (db, ok t)
answer_token t (db, err e) = (db, err (wrapped (codes "storing secret") e))

abbrev persist : ℤ → Call → Call → Db → CreateSecretInput → Result Bytes → Db × Result Bytes
persist now c c' db input (ok t) = answer_token t (store now c c' db t input)
persist now c c' db input (err e) = (db, err (wrapped (codes "generating token") e))

-- `Create`, for a service with the limit `max_bytes`.
unfoldable pub create :
    ℤ → Result Bytes → ℤ → Call → Call → Db → CreateSecretInput → Db × Result Bytes
unfolding generate_token
create max_bytes random now c c' db input =
    if ltb_ℤ max_bytes (pos (length input.ciphertext))
    then (db, err (sentinel too_large))
    else persist now c c' db input (generate_token random)

-- `Retrieve`.
unfoldable pub retrieve : Call → Call → Db → Bytes → Db × Result Secret
retrieve c c' db token = fetch_and_delete c c' db token
