-- ===== src/Model.antt =====
-- internal/model/secret.go, and the errors of the program: the sentinels that its packages declare,
-- errors of the database and of other libraries with their text, and `fmt.Errorf("…: %w", err)`.
use disapyr_link.Common.{ℕ, ℤ, Bool, true, false, ◌++◌, Option, Bytes, codes, ◌≡◌}

-- A UUID is a number, a time is a number of nanoseconds.
pub record Secret : Type 0 where
  pub id : ℕ
  pub token : Bytes
  pub ciphertext : Bytes
  pub nonce : Bytes
  pub expires_at : Option ℤ
  pub created_at : ℤ

pub record CreateSecretInput : Type 0 where
  pub ciphertext : Bytes
  pub nonce : Bytes
  pub expires_in : ℤ

pub record SecretPayload : Type 0 where
  pub ciphertext : Bytes
  pub nonce : Bytes

-- `pgx.ErrNoRows`, `repository.ErrNotFound`, `service.ErrTooLarge` and `http.ErrServerClosed`.
pub data Sentinel : Type 0 where
  no_rows not_found too_large server_closed : Sentinel

pub data Error : Type 0 where
  sentinel : Sentinel → Error
  external : Bytes → Error
  wrapped : Bytes → Error → Error

abbrev same_sentinel : Sentinel → Sentinel → Bool
same_sentinel no_rows no_rows = true
same_sentinel not_found not_found = true
same_sentinel too_large too_large = true
same_sentinel server_closed server_closed = true
same_sentinel _ _ = false

-- `errors.Is(err, target)` walks the chain of wrapped errors.
unfoldable pub errors_is : Error → Sentinel → Bool
errors_is (sentinel s) t = same_sentinel s t
errors_is (external _) t = false
errors_is (wrapped _ e) t = errors_is e t

abbrev sentinel_text : Sentinel → Bytes
sentinel_text no_rows = codes "no rows in result set"
sentinel_text not_found = codes "secret not found or expired"
sentinel_text too_large = codes "secret exceeds maximum allowed size"
sentinel_text server_closed = codes "http: Server closed"

-- `err.Error()`.
unfoldable pub error_text : Error → Bytes
error_text (sentinel s) = sentinel_text s
error_text (external text) = text
error_text (wrapped context e) = context ++ (codes ": " ++ error_text e)

pub data Result {ℓ} (A : Type ℓ) : Type ℓ where
  ok : A → Result A
  err : Error → Result A

pub ok-injective {ℓ} : {A : Type ℓ} {a b : A} → ok a ≡ ok b → a ≡ b
ok-injective h = cc

pub err-injective {ℓ} : {A : Type ℓ} {a b : Error} → ◌≡◌ {A = Result A} (err a) (err b) → a ≡ b
err-injective h = cc
