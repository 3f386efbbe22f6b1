-- ===== src/Handler/Secrets/Limit.antt =====
-- The limit on the body of internal/handler/handler.go's `CreateSecret`.
use disapyr_link.Common.{
  take-all, ℕ, ◌+◌, ◌*◌, ◌-◌, ◌/◌, ◌^◌, ◌≤◌, ◌<◌, pos, pos_part, ◌+ℤ◌, ◌*ℤ◌, wrap64, quot, ◌≡◌,
  false, [], arith, Bytes, length,
}
use disapyr_link.Encoding.Base64
use disapyr_link.Encoding.Base64.{length-encode_le}
use disapyr_link.Handler.Secrets.{max_bytes_reader, body_limit}

body_limit-pos : (m : ℕ) → m < 2 ^ 61 → body_limit (pos m) ≡ pos (m * 4 / 3 + 16384)
unfolding body_limit wrap64 quot ◌+ℤ◌ ◌*ℤ◌
body_limit-pos m h = ground arith

-- A body with a ciphertext within the limit on secrets is read whole: if the ciphertext has at most
-- `m` bytes, and the body is at most 16381 bytes longer than its base64 encoding, then nothing is cut.
pub max_bytes_reader-fits :
    (m : ℕ) (ct body : Bytes)
    → m < 2 ^ 61
    → length ct ≤ m
    → length body ≤ length (Base64.encode ct) + 16381
    → max_bytes_reader (body_limit (pos m)) body ≡ record { visible = body; cut = false }
unfolding max_bytes_reader
max_bytes_reader-fits m ct body small fits framed =
    let room : length body ≤ m * 4 / 3 + 16384 = omega (arith, length-encode_le ct) in
    rw (body_limit-pos m small, take-all (m * 4 / 3 + 16384) body room) (ground arith)

-- For a configured maximum of 2^61 bytes up to 12288 below 2^62 the limit overflows, and no byte of any body
-- is read.
pub max_bytes_reader-overflow :
    (m : ℕ) (body : Bytes)
    → 2 ^ 61 ≤ m
    → m ≤ 2 ^ 62 - 12288
    → (max_bytes_reader (body_limit (pos m)) body).visible ≡ []
unfolding max_bytes_reader body_limit wrap64 quot ◌+ℤ◌ ◌*ℤ◌
max_bytes_reader-overflow m body h k =
    let none_left : pos_part (body_limit (pos m)) ≡ 0 = ground arith in rw none_left
